-- ===== src/Config.antt =====
-- `EllipticsProxy::remote` and `EllipticsProxy::config` (include/elliptics/proxy.hpp, src/util.cpp).
use libelliptics_proxy.Base.{ℕ, ℤ, pos, Bool, true, List, [], Bytes}
use libelliptics_proxy.Proxy.{codes}

pub record Remote : Type 0 where
  pub host : Bytes
  pub port : ℤ
  pub family : ℤ

-- The constructor where the family is not given.
abbrev pub remote : Bytes → ℤ → Remote
remote host port = record { host = host; port = port; family = pos 2 }

pub record Config : Type 0 where
  pub log_path : Bytes
  pub log_mask : ℕ
  pub remotes : List Remote
  pub flags : ℤ
  pub ns : Bytes
  pub wait_timeout : ℕ
  pub check_timeout : ℤ
  pub groups : List ℤ
  pub base_port : ℤ
  pub directory_bit_num : ℤ
  pub success_copies_num : ℤ
  pub state_num : ℤ
  pub replication_count : ℤ
  pub chunk_size : ℤ
  pub eblob_style_path : Bool
  pub metabase_write_addr : Bytes
  pub metabase_read_addr : Bytes
  pub cocaine_config : Bytes
  pub group_weights_refresh_period : ℤ

-- `config()`; `log_mask` is `DNET_LOG_INFO|DNET_LOG_ERROR` of the elliptics headers.
unfoldable pub default_config : ℕ → Config
default_config log_mask = record {
  log_path = codes "/dev/stderr";
  log_mask = log_mask;
  remotes = [];
  flags = pos 0;
  ns = [];
  wait_timeout = 0;
  check_timeout = pos 0;
  groups = [];
  base_port = pos 1024;
  directory_bit_num = pos 32;
  success_copies_num = pos 2;
  state_num = pos 0;
  replication_count = pos 0;
  chunk_size = pos 0;
  eblob_style_path = true;
  metabase_write_addr = [];
  metabase_read_addr = [];
  cocaine_config = [];
  group_weights_refresh_period = pos 60;
}
