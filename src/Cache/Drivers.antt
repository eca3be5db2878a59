-- ===== src/Cache/Drivers.antt =====
-- The drivers as values of the interface: `var _ Cache = (*Valkey)(nil)` and `(*Memcached)(nil)`.
use nostradamus_api.World.{World}
use nostradamus_api.Cache.Interface.{Cache}
use nostradamus_api.Cache.Valkey
use nostradamus_api.Cache.Memcached

module _ (W : World) where
  abbrev pub valkey : Cache W
  valkey = record {
    store = Valkey.store W;
    fetch_last = Valkey.fetch_last W;
    store_aggregate = Valkey.store_aggregate W;
    fetch_aggregate = Valkey.fetch_aggregate W;
    ping = Valkey.ping W;
  }

  abbrev pub memcached : Cache W
  memcached = record {
    store = Memcached.store W;
    fetch_last = Memcached.fetch_last W;
    store_aggregate = Memcached.store_aggregate W;
    fetch_aggregate = Memcached.fetch_aggregate W;
    ping = Memcached.ping W;
  }
