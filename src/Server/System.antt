-- ===== src/Server/System.antt =====
-- src/server.rs: the server as a whole. Its connections and its background tasks share the keyspace, the
-- counters and the persistence manager, and take turns in any order: each round of one task is a step.
--
-- The manager's count of changes and what was sent to its channel are the server's journal; `written` of
-- the commands that were sent have been through the writer's task.
pub mod Saves
pub mod Valid
pub mod Counts
pub mod Replies
pub mod Tasks
pub mod Logged
pub mod Restart
pub mod Snapshot
use fire_redis.Prelude.{
  ℕ, zero, suc, ◌≡◌, ◌||◌, Bool, true, false, Option, none, some, List, [], ◌∷◌, ◌++◌, Bytes,
  get_elem?, if◌then◌else◌,
}
use fire_redis.Platform.{Platform}
use fire_redis.Metrics.{Metrics, record_connection_opened, record_connection_closed}
use fire_redis.Resp.{Value}
use fire_redis.Store.{Store, Instant}
use fire_redis.Persistence.Config.{PersistenceConfig}
use fire_redis.Persistence.Manager as P
use fire_redis.Persistence.Manager.{Disk, PersistenceManager, SaveTimes}
use fire_redis.Server.{
  Journal, Server, Item, shut_down, Event, Progress, waits, leaves, crashes, serve, evict,
  update_metrics, count_in,
}

-- The task of one connection: the items that it has taken, its replies to them, how far
-- `handle_connection` is, and whether the lines behind it have run.
pub record Connection : Type 0 where
  pub taken : List Item
  pub sent : List Value
  pub progress : Progress
  pub closed : Bool

pub record System : Type 0 where
  pub server : Server
  pub manager : Option PersistenceManager
  pub connections : List Connection
  pub written : ℕ
  pub accepting : Bool

-- `PersistenceManager::new` makes the channel where the append-only file is enabled.
abbrev pub new_journal : PersistenceConfig → Journal
new_journal config = record {
  dirty_counter = 0;
  logged = if config.aof_enabled then some [] else none;
}

-- `Server::new`, and the accept loop before its first round; the store is what was loaded.
unfoldable pub start : PersistenceConfig → Instant → Disk → Store → System
start config now disk s =
    let persists = config.rdb_enabled || config.aof_enabled in
    record {
      server = record { store = s; journal = if persists then some (new_journal config) else none };
      manager = if persists then some (P.new config now disk) else none;
      connections = [];
      written = 0;
      accepting = true;
    }

abbrev pub new_connection : Connection
new_connection = record { taken = []; sent = []; progress = waits; closed = false }

-- The arm of the accept loop for a new connection.
unfoldable pub accept : System → System
accept sys = record sys {
  server = record sys.server { store = count_in record_connection_opened sys.server.store };
  connections = new_connection ∷ sys.connections;
}

-- A connection between others takes its next item.
unfoldable pub take_turn :
    Platform
    → (Metrics → Bytes)
    → List Connection
    → Connection
    → List Connection
    → Event
    → System
    → System
take_turn fl info before c after e sys =
    let (server', out, p) = serve fl info e sys.server in
    record sys {
      server = server';
      connections =
          before
          ++ record {
            taken = c.taken ++ e.item ∷ [];
            sent = c.sent ++ out;
            progress = p;
            closed = c.closed;
          }
            ∷ after;
    }

-- What the connection's task does behind `handle_connection`.
unfoldable pub close : List Connection → Connection → List Connection → System → System
close before c after sys = record sys {
  server = record sys.server { store = count_in record_connection_closed sys.server.store };
  connections = before ++ record c { closed = true } ∷ after;
}

-- Which commands were sent to the writer's task.
abbrev pub sent_of : Option Journal → List Value
sent_of none = []
sent_of (some j) = elim j.logged [ none ↦ [] | some cs ↦ cs ]

-- The writer's task takes a command from the channel.
unfoldable pub write_next : Value → PersistenceManager → System → System
write_next c m sys = record sys { manager = some (P.process_aof c m); written = suc sys.written }

-- The manager, with the count of changes that the journal keeps for it.
abbrev pub counting : Journal → PersistenceManager → PersistenceManager
counting j m = record m { dirty_counter = j.dirty_counter }

-- A task of the manager that may save the keyspace.
unfoldable pub with_manager :
    (PersistenceManager × Store → PersistenceManager × Store)
    → Journal
    → PersistenceManager
    → System
    → System
with_manager task j m sys =
    let (m', s') = task (counting j m, sys.server.store) in
    record sys {
      server = record {
        store = s';
        journal = some (record j { dirty_counter = m'.dirty_counter });
      };
      manager = some m';
    }

-- The shutdown channel yields where the accept loop has been left.
abbrev pub Delivers : System → Item → Type 0
Delivers sys shut_down = sys.accepting ≡ false
Delivers sys _ = Unit

module _ (fl : Platform) (info : Metrics → Bytes) where
  -- A step of the server, with the items that it takes.
  pub data Step (sys : System) : List Event → System → Type 0 where
    accepts : sys.accepting ≡ true → Step sys [] (accept sys)
    serves :
        (before : List Connection) (c : Connection) (after : List Connection) (e : Event)
        → sys.connections ≡ before ++ c ∷ after
        → c.progress ≡ waits
        → Delivers sys e.item
        → Step sys (e ∷ []) (take_turn fl info before c after e sys)
    closes :
        (before : List Connection) (c : Connection) (after : List Connection)
        → sys.connections ≡ before ++ c ∷ after
        → c.progress ≡ leaves
        → c.closed ≡ false
        → Step sys [] (close before c after sys)
    evicts : (now : Instant) → Step sys [] (record sys { server = evict now sys.server })
    samples : Step sys [] (record sys { server = update_metrics sys.server })
    writes :
        (c : Value) (m : PersistenceManager)
        → sys.manager ≡ some m
        → get_elem? (sent_of sys.server.journal) sys.written ≡ some c
        → Step sys [] (write_next c m sys)
    flushes :
        (m : PersistenceManager)
        → sys.manager ≡ some m
        → Step sys [] (record sys { manager = some (P.fsync_aof m) })
    saves :
        (t : SaveTimes) (j : Journal) (m : PersistenceManager)
        → sys.server.journal ≡ some j
        → sys.manager ≡ some m
        → Step sys [] (with_manager (P.autosave fl t) j m sys)
    stops : sys.accepting ≡ true → Step sys [] (record sys { accepting = false })
    shuts_down :
        (t : SaveTimes) (j : Journal) (m : PersistenceManager)
        → sys.accepting ≡ false
        → sys.server.journal ≡ some j
        → sys.manager ≡ some m
        → Step sys [] (with_manager (P.shutdown fl t) j m sys)

  -- Any number of steps, with the items that they take, in their order.
  pub data Run (sys : System) : List Event → System → Type 0 where
    here : Run sys [] sys
    more :
        {es fs : List Event} {mid last : System}
        → Run sys es mid
        → Step mid fs last
        → Run sys (es ++ fs) last
