-- ===== src/Engine/Config.antt =====
-- QueueConfig, with spans of time in microseconds.
use yasin_press_rewrite.Base.{ℕ}
use yasin_press_rewrite.Models.{seconds}

pub record QueueConfig : Type 0 where
  pub global_limit : ℕ
  pub source_limit : ℕ
  pub lease : ℕ
  pub retry_base : ℕ
  pub max_attempts : ℕ

abbrev pub default_config : QueueConfig
default_config = record {
  global_limit = 10;
  source_limit = 5;
  lease = seconds 60;
  retry_base = seconds 2;
  max_attempts = 3;
}
