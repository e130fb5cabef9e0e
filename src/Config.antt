-- ===== src/Config.antt =====
-- The settings of aws_light/config.py that the modelled code reads. A float is an `Amount`.
use aws_light.Prelude.{ℕ, String}
use aws_light.Prelude.Int.{pos}
use aws_light.Models.{Amount}

pub record Settings : Type 0 where
  pub jwt_expiry_hours : ℕ
  pub default_admin_username : String
  pub default_admin_password : String
  pub node_count : ℕ
  pub node_cpu_capacity : Amount
  pub node_memory_capacity_mb : Amount
  pub health_check_failure_threshold : ℕ
  pub health_check_success_threshold : ℕ
  pub autoscaler_cpu_scale_up_threshold : Amount
  pub autoscaler_rps_scale_up_threshold : Amount
  pub autoscaler_cpu_scale_down_threshold : Amount
  pub autoscaler_rps_scale_down_threshold : Amount
  pub autoscaler_scale_down_consecutive_checks : ℕ

-- the values of the class, in hundredths for floats
abbrev pub default_settings : Settings
default_settings = record {
  jwt_expiry_hours = 24;
  default_admin_username = "admin";
  default_admin_password = "admin";
  node_count = 10;
  node_cpu_capacity = pos 50;
  node_memory_capacity_mb = pos 51200;
  health_check_failure_threshold = 3;
  health_check_success_threshold = 1;
  autoscaler_cpu_scale_up_threshold = pos 7000;
  autoscaler_rps_scale_up_threshold = pos 10000;
  autoscaler_cpu_scale_down_threshold = pos 2000;
  autoscaler_rps_scale_down_threshold = pos 1000;
  autoscaler_scale_down_consecutive_checks = 2;
}
