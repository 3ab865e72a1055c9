-- ===== src/Keeps/Reads.antt =====
-- The commands that are not written to the append-only file (`should_log_to_aof` of
-- src/persistence/aof.rs) change nothing that a client sees.
use fire_redis.Prelude.{
  ◌≡◌, Bool, true, false, List, [], ◌∷◌, Bytes, codes, beq, Bool-cases, inl, inr,
  to_ascii_uppercase, if◌then◌else◌,
}
use fire_redis.Platform.{Platform}
use fire_redis.Metrics.{Metrics}
use fire_redis.Store
use fire_redis.Store.{Store, Instant, check_expiration}
use fire_redis.Store.Strings
use fire_redis.Store.Lists
use fire_redis.Store.Sets
use fire_redis.Store.Hashes
use fire_redis.Store.SortedSets
use fire_redis.Persistence.Aof.{should_log_to_aof}
use fire_redis.Commands.Types.{Command}
use fire_redis.Commands.Execute.{execute}
use fire_redis.Commands.Data.Replies.{Handled, typed, ensure_type, type_clash}
use fire_redis.Commands.Data.Keys as K
use fire_redis.Commands.Data.Strings as S
use fire_redis.Commands.Data.Lists as L
use fire_redis.Commands.Data.Sets as E
use fire_redis.Commands.Data.Hashes as H
use fire_redis.Commands.Data.SortedSets as Z
use fire_redis.Keeps.Commands.{outcome_keeps, unless_keeps}

-- The name under which `Command::try_from` reads a command.
abbrev pub name_of : Command → Bytes
name_of Command.ping = codes "PING"
name_of Command.quit = codes "QUIT"
name_of Command.info = codes "INFO"
name_of Command.flush_all = codes "FLUSHALL"
name_of (Command.echo _) = codes "ECHO"
name_of (Command.get _) = codes "GET"
name_of (Command.incr _) = codes "INCR"
name_of (Command.decr _) = codes "DECR"
name_of (Command.str_len _) = codes "STRLEN"
name_of (Command.type _) = codes "TYPE"
name_of (Command.ttl _) = codes "TTL"
name_of (Command.pttl _) = codes "PTTL"
name_of (Command.keys _) = codes "KEYS"
name_of (Command.set _ _ _ _) = codes "SET"
name_of (Command.del _) = codes "DEL"
name_of (Command.exists _) = codes "EXISTS"
name_of (Command.m_get _) = codes "MGET"
name_of (Command.expire _ _) = codes "EXPIRE"
name_of (Command.m_set _) = codes "MSET"
name_of (Command.append _ _) = codes "APPEND"
name_of (Command.l_push _ _) = codes "LPUSH"
name_of (Command.r_push _ _) = codes "RPUSH"
name_of (Command.l_pop _) = codes "LPOP"
name_of (Command.r_pop _) = codes "RPOP"
name_of (Command.l_len _) = codes "LLEN"
name_of (Command.l_index _ _) = codes "LINDEX"
name_of (Command.l_range _ _ _) = codes "LRANGE"
name_of (Command.s_add _ _) = codes "SADD"
name_of (Command.s_rem _ _) = codes "SREM"
name_of (Command.s_members _) = codes "SMEMBERS"
name_of (Command.s_card _) = codes "SCARD"
name_of (Command.s_is_member _ _) = codes "SISMEMBER"
name_of (Command.s_pop _ _) = codes "SPOP"
name_of (Command.h_set _ _) = codes "HSET"
name_of (Command.h_get _ _) = codes "HGET"
name_of (Command.h_exists _ _) = codes "HEXISTS"
name_of (Command.h_del _ _) = codes "HDEL"
name_of (Command.h_len _) = codes "HLEN"
name_of (Command.h_keys _) = codes "HKEYS"
name_of (Command.h_vals _) = codes "HVALS"
name_of (Command.h_get_all _) = codes "HGETALL"
name_of (Command.z_add _ _) = codes "ZADD"
name_of (Command.z_range _ _ _) = codes "ZRANGE"
name_of (Command.z_rev_range _ _ _) = codes "ZREVRANGE"
name_of (Command.z_score _ _) = codes "ZSCORE"
name_of (Command.z_rem _ _) = codes "ZREM"
name_of (Command.z_card _) = codes "ZCARD"
name_of (Command.z_count _ _ _) = codes "ZCOUNT"

-- A predicate that the lazy expiry of any key and the eviction of all keys keep, at this time.
pub record Reads (now : Instant) (P : Store → Type 0) : Type 0 where
  pub on_check : (key : Bytes) (s : Store) → P s → P (check_expiration now key s).0
  pub on_evict : (s : Store) → P s → P (Store.evict_expired now s).0

true-false : true ≡ false → ⊥
true-false e = cc

module _ {now : Instant} {P : Store → Type 0} (r : Reads now P) where
  both {ℓ} :
      {A : Type ℓ} (b : Bool) (t : Store) (x y : A)
      → P t
      → P (if◌then◌else◌ {A = Store × A} b (t, x) (t, y)).0
  both true t x y p = p
  both false t x y p = p

  type_reads : (key : Bytes) (s : Store) → P s → P (Store.type_of now key s).0
  unfolding Store.type_of
  type_reads key s p = both _ _ _ _ (r.on_check key s p)

  pttl_reads : (key : Bytes) (s : Store) → P s → P (Store.pttl now key s).0
  unfolding Store.pttl Store.exists
  pttl_reads key s p = both _ _ _ _ (r.on_check key s p)

  typed_reads :
      (expected key : Bytes) (f : Store → Handled) (s : Store)
      → ((t : Store) → P t → P (f t).0)
      → P s
      → P (typed expected now key f s).0
  unfolding typed ensure_type
  typed_reads expected key f s h p =
      unless_keeps (type_clash (Store.type_of now key s).1 expected) f (Store.type_of now key s).0 h
        (type_reads key s p)

  get_all_reads : (ks : List Bytes) (s : Store) → P s → P (S.get_all now ks s).0
  unfolding S.get_all Strings.get
  get_all_reads [] s p = p
  get_all_reads (k ∷ ks) s p = get_all_reads ks _ (both _ _ _ _ (r.on_check k s p))

  count_existing_reads : (ks : List Bytes) (s : Store) → P s → P (K.count_existing now ks s).0
  unfolding K.count_existing Store.exists
  count_existing_reads [] s p = p
  count_existing_reads (k ∷ ks) s p = count_existing_reads ks _ (r.on_check k s p)

  keys_reads : (pattern : Bytes) (s : Store) → P s → P (K.handle_keys now pattern s).0
  unfolding K.handle_keys Store.keys
  keys_reads pattern s p = elim (Bool-cases (beq pattern (codes "*"))) [
    | inl star ↦ rw star (r.on_evict s p)
    | inr other ↦ rw other p
  ]

  pub execute_reads :
      (fl : Platform) (info : Metrics → Bytes) (c : Command) (s : Store)
      → should_log_to_aof (name_of c) ≡ false
      → P s
      → P (execute fl info now c s).0
  unfolding execute should_log_to_aof beq to_ascii_uppercase S.handle_get Strings.get K.handle_type
      K.handle_ttl Store.ttl K.handle_pttl K.handle_exists S.handle_mget L.handle_l_len Lists.l_len
      L.handle_l_index Lists.l_index L.handle_l_range Lists.l_range E.handle_s_members
      Sets.s_members E.handle_s_card Sets.s_card E.handle_s_is_member Sets.s_is_member
      H.handle_h_get Hashes.h_get H.handle_h_exists Hashes.h_exists H.handle_h_len Hashes.h_len
      H.handle_h_keys Hashes.h_keys H.handle_h_vals Hashes.h_vals H.handle_h_get_all
      Hashes.h_get_all Z.handle_z_range SortedSets.z_range Z.handle_z_rev_range
      SortedSets.z_rev_range Z.handle_z_score SortedSets.z_score Z.handle_z_card SortedSets.z_card
      Z.handle_z_count SortedSets.z_count
  execute_reads fl info Command.ping s e p = p
  execute_reads fl info Command.quit s e p = p
  execute_reads fl info Command.info s e p = p
  execute_reads fl info Command.flush_all s e p = absurd (true-false e)
  execute_reads fl info (Command.echo m) s e p = p
  execute_reads fl info (Command.get k) s e p =
      typed_reads _ k _ s (λ t q. both _ _ _ _ (r.on_check k t q)) p
  execute_reads fl info (Command.incr k) s e p = absurd (true-false e)
  execute_reads fl info (Command.decr k) s e p = absurd (true-false e)
  execute_reads fl info (Command.str_len k) s e p = absurd (true-false e)
  execute_reads fl info (Command.type k) s e p = type_reads k s p
  execute_reads fl info (Command.ttl k) s e p = pttl_reads k s p
  execute_reads fl info (Command.pttl k) s e p = pttl_reads k s p
  execute_reads fl info (Command.keys pattern) s e p = keys_reads pattern s p
  execute_reads fl info (Command.set k v px c) s e p = absurd (true-false e)
  execute_reads fl info (Command.del ks) s e p = absurd (true-false e)
  execute_reads fl info (Command.exists ks) s e p = count_existing_reads ks s p
  execute_reads fl info (Command.m_get ks) s e p = get_all_reads ks s p
  execute_reads fl info (Command.expire k ms) s e p = absurd (true-false e)
  execute_reads fl info (Command.m_set es) s e p = absurd (true-false e)
  execute_reads fl info (Command.append k v) s e p = absurd (true-false e)
  execute_reads fl info (Command.l_push k vs) s e p = absurd (true-false e)
  execute_reads fl info (Command.r_push k vs) s e p = absurd (true-false e)
  execute_reads fl info (Command.l_pop k) s e p = absurd (true-false e)
  execute_reads fl info (Command.r_pop k) s e p = absurd (true-false e)
  execute_reads fl info (Command.l_len k) s e p =
      typed_reads _ k _ s (λ t q. both _ _ _ _ (r.on_check k t q)) p
  execute_reads fl info (Command.l_index k i) s e p =
      typed_reads _ k _ s (λ t q. both _ _ _ _ (r.on_check k t q)) p
  execute_reads fl info (Command.l_range k i j) s e p =
      typed_reads _ k _ s (λ t q. outcome_keeps P _ _ (both _ _ _ _ (r.on_check k t q))) p
  execute_reads fl info (Command.s_add k ms) s e p = absurd (true-false e)
  execute_reads fl info (Command.s_rem k ms) s e p = absurd (true-false e)
  execute_reads fl info (Command.s_members k) s e p =
      typed_reads _ k _ s (λ t q. both _ _ _ _ (r.on_check k t q)) p
  execute_reads fl info (Command.s_card k) s e p =
      typed_reads _ k _ s (λ t q. both _ _ _ _ (r.on_check k t q)) p
  execute_reads fl info (Command.s_is_member k m) s e p =
      typed_reads _ k _ s (λ t q. both _ _ _ _ (r.on_check k t q)) p
  execute_reads fl info (Command.s_pop k n) s e p = absurd (true-false e)
  execute_reads fl info (Command.h_set k fs) s e p = absurd (true-false e)
  execute_reads fl info (Command.h_get k f) s e p =
      typed_reads _ k _ s (λ t q. both _ _ _ _ (r.on_check k t q)) p
  execute_reads fl info (Command.h_exists k f) s e p =
      typed_reads _ k _ s (λ t q. both _ _ _ _ (r.on_check k t q)) p
  execute_reads fl info (Command.h_del k fs) s e p = absurd (true-false e)
  execute_reads fl info (Command.h_len k) s e p =
      typed_reads _ k _ s (λ t q. both _ _ _ _ (r.on_check k t q)) p
  execute_reads fl info (Command.h_keys k) s e p =
      typed_reads _ k _ s (λ t q. both _ _ _ _ (r.on_check k t q)) p
  execute_reads fl info (Command.h_vals k) s e p =
      typed_reads _ k _ s (λ t q. both _ _ _ _ (r.on_check k t q)) p
  execute_reads fl info (Command.h_get_all k) s e p =
      typed_reads _ k _ s (λ t q. both _ _ _ _ (r.on_check k t q)) p
  execute_reads fl info (Command.z_add k es) s e p = absurd (true-false e)
  execute_reads fl info (Command.z_range k i j) s e p =
      typed_reads _ k _ s (λ t q. both _ _ _ _ (r.on_check k t q)) p
  execute_reads fl info (Command.z_rev_range k i j) s e p =
      typed_reads _ k _ s (λ t q. both _ _ _ _ (r.on_check k t q)) p
  execute_reads fl info (Command.z_score k m) s e p =
      typed_reads _ k _ s (λ t q. both _ _ _ _ (r.on_check k t q)) p
  execute_reads fl info (Command.z_rem k ms) s e p = absurd (true-false e)
  execute_reads fl info (Command.z_card k) s e p =
      typed_reads _ k _ s (λ t q. both _ _ _ _ (r.on_check k t q)) p
  execute_reads fl info (Command.z_count k lo hi) s e p =
      typed_reads _ k _ s (λ t q. outcome_keeps P _ _ (both _ _ _ _ (r.on_check k t q))) p
