-- ===== src/Server/System/Restart.antt =====
-- What the whole server leaves for its next start (src/server.rs, src/persistence/manager.rs).
use fire_redis.Prelude.{
  ℕ, ◌≡◌, refl, sym, ap, ◌∙◌, subst, true, ◌||◌, none, some, List, [], ◌∷◌, ◌++◌, map, All, Bytes,
  arith, length-append, take, append_assoc, append-nil, if◌then◌else◌,
}
use fire_redis.Platform.{Platform}
use fire_redis.Metrics.{Metrics}
use fire_redis.Resp.{Value}
use fire_redis.Resp.Wire.{normal, IsWire}
use fire_redis.Store.{Store, Instant}
use fire_redis.Persistence.Aof.{encode_all}
use fire_redis.Persistence.Aof.Replay.{run_log}
use fire_redis.Persistence.Config.{PersistenceConfig}
use fire_redis.Persistence.Manager as P
use fire_redis.Persistence.Manager.{
  Disk, PersistenceManager, SaveTimes, load_on_startup, from_aof, content_of,
}
use fire_redis.Persistence.Manager.Restart.{IsAt, new-IsAt, load_on_startup-encode_all}
use fire_redis.Server.{Event, serve, evict, update_metrics}
use fire_redis.Server.Journaling.{writes_of, all_writes, sends, IsCount, Journaled, item-Journaled}
use fire_redis.Server.System.Tasks.{autosave-Leaves, shutdown-Leaves}
use fire_redis.Server.System.Logged.{
  IsLogged, take_within, same-IsLogged, write-IsLogged, task-IsLogged, flush-IsLogged,
}
use fire_redis.Server.System.{
  Connection, System, Step, accepts, serves, closes, evicts, samples, writes, flushes, saves, stops,
  shuts_down, Run, here, more, start, new_journal, accept, take_turn, close, counting,
}

module _ (fl : Platform) (info : Metrics → Bytes) where
  serve-IsLogged :
      {old ws : List Value} {sys : System} (before : List Connection) (c : Connection)
      (after : List Connection) (e : Event)
      → IsLogged old ws sys
      → IsLogged old (ws ++ writes_of e.item) (take_turn fl info before c after e sys)
  unfolding take_turn
  serve-IsLogged {old} {ws} {sys} before c after e h =
      let count : IsCount sys.server.journal = subst IsCount (sym h.has_journal) h.is_count in
      let sends_these = item-Journaled fl info e.item e.now e.elapsed_us sys.server count in
      let (j, has, sent, n) =
        subst (λ o. Journaled (writes_of e.item) o (serve fl info e sys.server).0.journal)
          h.has_journal sends_these in
      record {
        journal = j;
        has_journal = has;
        has_sent = sent ∙ ap (sends (writes_of e.item)) h.has_sent;
        is_count = omega (arith, n);
        within = omega (arith, h.within, length-append ws (writes_of e.item));
        manager = h.manager;
        has_manager = h.has_manager;
        at =
            subst (λ t. IsAt (encode_all (old ++ t)) h.manager)
              (sym (take_within sys.written ws (writes_of e.item) h.within)) h.at;
      }

  Step-IsLogged :
      {old ws : List Value} {sys next : System} {es : List Event}
      → Step fl info sys es next
      → IsLogged old ws sys
      → IsLogged old (ws ++ all_writes es) next
  unfolding accept close evict update_metrics
  Step-IsLogged {old} {ws} {sys} (serves before c after e _ _ _) h =
      rw (append-nil (writes_of e.item)) (serve-IsLogged before c after e h)
  Step-IsLogged {old} {ws} (accepts _) h = rw (append-nil ws) (same-IsLogged h refl refl refl)
  Step-IsLogged {old} {ws} (closes before c after _ _ _) h =
      rw (append-nil ws) (same-IsLogged h refl refl refl)
  Step-IsLogged {old} {ws} (evicts now) h = rw (append-nil ws) (same-IsLogged h refl refl refl)
  Step-IsLogged {old} {ws} samples h = rw (append-nil ws) (same-IsLogged h refl refl refl)
  Step-IsLogged {old} {ws} (stops _) h = rw (append-nil ws) (same-IsLogged h refl refl refl)
  Step-IsLogged {old} {ws} (writes c m e g) h = rw (append-nil ws) (write-IsLogged c m h e g)
  Step-IsLogged {old} {ws} (flushes m e) h = rw (append-nil ws) (flush-IsLogged m h e)
  Step-IsLogged {old} {ws} (saves t j m ej em) h =
      rw (append-nil ws)
        (task-IsLogged (P.autosave fl t) j m (autosave-Leaves fl t (counting j m)) h ej em)
  Step-IsLogged {old} {ws} (shuts_down t j m _ ej em) h =
      rw (append-nil ws)
        (task-IsLogged (P.shutdown fl t) j m (shutdown-Leaves fl t (counting j m)) h ej em)

  all_writes-append : (es fs : List Event) → all_writes (es ++ fs) ≡ all_writes es ++ all_writes fs
  all_writes-append [] fs = refl
  all_writes-append (e ∷ es) fs =
      ap (λ t. writes_of e.item ++ t) (all_writes-append es fs)
      ∙ sym (append_assoc (writes_of e.item) (all_writes es) (all_writes fs))

  Run-IsLogged :
      {old ws : List Value} {sys last : System} {es : List Event}
      → Run fl info sys es last
      → IsLogged old ws sys
      → IsLogged old (ws ++ all_writes es) last
  Run-IsLogged {old} {ws} here h = rw (append-nil ws) h
  Run-IsLogged {old} {ws} {last} (more {es} {fs} run step) h =
      subst (λ t. IsLogged old t last)
        (append_assoc ws (all_writes es) (all_writes fs)
          ∙ ap (λ t. ws ++ t) (sym (all_writes-append es fs)))
        (Step-IsLogged step (Run-IsLogged run h))

  start-IsLogged :
      (config : PersistenceConfig) (now : Instant) (disk : Disk) (s : Store) (old : List Value)
      → config.aof_enabled ≡ true
      → content_of disk.aof ≡ encode_all old
      → IsLogged old [] (start config now disk s)
  unfolding start
  start-IsLogged config now disk s old a e =
      let persists : (config.rdb_enabled || config.aof_enabled) ≡ true = ground arith in
      record {
        journal = new_journal config;
        has_journal = ap (λ b. if b then some (new_journal config) else none) persists;
        has_sent = ap (λ b. if b then some [] else none) a;
        is_count = omega arith;
        within = omega arith;
        manager = P.new config now disk;
        has_manager = ap (λ b. if b then some (P.new config now disk) else none) persists;
        at =
            subst (λ b. IsAt b (P.new config now disk)) (e ∙ ap encode_all (sym (append-nil old)))
              (new-IsAt config now disk a);
      }

  -- A server that was started with the append-only file, on a log that was there, and whose connections
  -- and background tasks took turns in any way, also up to its shutdown: wherever it ends, the next
  -- start replays that log and, in the order in which the connections were served, as many of the write
  -- commands that they received as the writer's task has taken. The codec can carry those commands.
  pub load_on_startup-Run :
      (config : PersistenceConfig) (first second : Instant) (disk : Disk) (loaded : Store)
      (old : List Value) {es : List Event} {last : System} (clock : ℕ → Instant) (wall : ℕ)
      (s : Store)
      → config.aof_enabled ≡ true
      → content_of disk.aof ≡ encode_all old
      → Run fl info (start config first disk loaded) es last
      → All (IsWire fl.most_values) (old ++ take last.written (all_writes es))
      → let log = map normal (old ++ take last.written (all_writes es)) in
        (m : PersistenceManager) × (last.manager ≡ some m)
        × (load_on_startup fl info clock wall (P.new config second m.disk) s
            ≡ ((run_log fl info clock 0 log s).0, from_aof (run_log fl info clock 0 log s).1))
  load_on_startup-Run config first second disk loaded old {es} {last} clock wall s a e run w =
      let h : IsLogged old (all_writes es) last =
        Run-IsLogged run (start-IsLogged config first disk loaded old a e) in
      let (x, e0, e1, e2, there) = h.at in
      (
        h.manager,
        h.has_manager,
        load_on_startup-encode_all fl info config second h.manager.disk clock wall
            (old ++ take last.written (all_writes es)) s a (ap content_of there) w,
      )
