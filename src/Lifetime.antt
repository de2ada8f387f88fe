-- ===== src/Lifetime.antt =====
-- The constructor and the destructor of `EllipticsProxy` (src/proxy.cpp).
pub mod Opening
use libelliptics_proxy.Base.{
  ℕ, ℤ, Bool, true, false, not, List, [], ◌∷◌, Bytes, is_empty, if◌then◌else◌,
}
use libelliptics_proxy.Result.{Exception, Result, ok, throw, empty_remotes, is_std}
use libelliptics_proxy.Config.{Remote, Config}
use libelliptics_proxy.Proxy.{
  External, Settings, World, Event, M, pure, ask, tell, require, catching, meta_none, ◌>>=◌, ◌>>◌,
}

-- The members that the initializers and the body set from the configuration.
unfoldable pub settings_of : Config → Settings
settings_of c = record {
  groups = c.groups;
  base_port = c.base_port;
  directory_bit_num = c.directory_bit_num;
  success_copies_num = c.success_copies_num;
  state_num = c.state_num;
  replication_count = c.replication_count;
  chunk_size = c.chunk_size;
  eblob_style_path = c.eblob_style_path;
  metabase_usage = meta_none;
  metabase_write_addr = c.metabase_write_addr;
  metabase_read_addr = c.metabase_read_addr;
  has_dealer = not (is_empty c.cocaine_config);
  group_weights_update_period = c.group_weights_refresh_period;
  deadline = c.wait_timeout;
}

module _ (x : External) where
  -- The cache is new, and `metabase_current_stamp_` is what the memory holds.
  unfoldable pub fresh_members : ℕ → M (Unit {0})
  fresh_members garbage w = (ok tt, record w { cache = []; stamp = garbage })

  -- A remote that cannot be added is logged, and the next one is tried.
  unfoldable pub add_remotes : List Remote → M (Unit {0})
  add_remotes [] = pure tt
  add_remotes (r ∷ rs) = do
    catching is_std (ask x.done (Event.add_remote r.host r.port r.family)) λ e. tell Event.log_error
    add_remotes rs

  -- The dealer of a configuration that names one.
  unfoldable pub open_dealer_of : Config → M (Unit {0})
  open_dealer_of c =
      if not (is_empty c.cocaine_config)
      then ask x.done (Event.open_dealer c.cocaine_config)
      else pure tt

  unfoldable pub start_thread_of : Settings → M (Unit {0})
  start_thread_of s = if s.has_dealer then ask x.done Event.start_thread else pure tt

  -- The body of the constructor.
  unfoldable pub open_body : Config → M Settings
  unfolding add_remotes open_dealer_of start_thread_of settings_of
  open_body c = do
    require (not (is_empty c.remotes)) empty_remotes
    ask x.done (Event.open_log c.log_path c.log_mask)
    ask x.done (Event.open_node c.wait_timeout c.check_timeout c.flags c.ns)
    add_remotes c.remotes
    open_dealer_of c
    start_thread_of (settings_of c)
    pure (settings_of c)

  unfoldable pub open_proxy : ℕ → Config → M Settings
  unfolding fresh_members open_body
  open_proxy garbage c = do fresh_members garbage; open_body c

  -- The destructor.
  unfoldable pub close_proxy : M (Unit {0})
  close_proxy = do tell Event.interrupt_thread; tell Event.join_thread
