-- ===== src/Constants.antt =====
-- src/constants.py
use gemma_vllm_worker.Base.Int.{ℤ, pos}

abbrev pub default_batch_size : ℤ
default_batch_size = pos 50

abbrev pub default_max_concurrency : ℤ
default_max_concurrency = pos 30

abbrev pub default_batch_size_growth_factor : ℤ
default_batch_size_growth_factor = pos 3

abbrev pub default_min_batch_size : ℤ
default_min_batch_size = pos 1
