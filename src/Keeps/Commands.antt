-- ===== src/Keeps/Commands.antt =====
-- A command keeps a predicate that the changes of each of its keys keep.
use fire_redis.Prelude.{
  ℕ, ◌≡◌, refl, false, Option, none, some, List, [], ◌∷◌, map, Bytes, arith, All, inl, inr,
  is_empty, Bool-cases, pos, negsuc, codes, beq, Outcome, returns, panics, length,
}
use mathlib.Core.List.{reverse}
use fire_redis.Dict
use fire_redis.Platform.{Platform, Score}
use fire_redis.Metrics.{Metrics}
use fire_redis.Resp.{Value}
use fire_redis.Store
use fire_redis.Store.{StoredValue, Store, Instant, forget}
use fire_redis.Store.Strings
use fire_redis.Store.Lists
use fire_redis.Store.Hashes
use fire_redis.Store.Sets
use fire_redis.Store.SortedSets
use fire_redis.Commands.Types.{Command, SetCondition}
use fire_redis.Commands.Execute.{execute}
use fire_redis.Commands.Data.Replies.{Handled, answer_outcome, typed, type_clash, unless_error}
use fire_redis.Commands.Data.Keys as K
use fire_redis.Commands.Data.Strings as S
use fire_redis.Commands.Data.Lists as L
use fire_redis.Commands.Data.Sets as E
use fire_redis.Commands.Data.Hashes as H
use fire_redis.Commands.Data.SortedSets as Z
use fire_redis.Keeps.Named.{keys_of, IsWhole, HasMembers}
use fire_redis.Keeps.{Closed}
use fire_redis.Keeps.Keys as KeepsKeys
use fire_redis.Keeps.Values as KeepsValues
use fire_redis.Keeps.Values.{Admits}
use fire_redis.Keeps.Collections as KeepsCollections

pub unless_keeps :
    {P : Store → Type 0} (e : Option Value) (f : Store → Handled) (s : Store)
    → ((t : Store) → P t → P (f t).0)
    → P s
    → P (unless_error e f s).0
unless_keeps none f s h p = h s p
unless_keeps (some e) f s h p = p

module _ {Q : StoredValue → Type 0} {P : Store → Type 0} {key : Bytes} (c : Closed Q P key) where
  typed_keeps :
      (expected : Bytes) (now : Instant) (f : Store → Handled) (s : Store)
      → ((t : Store) → P t → P (f t).0)
      → P s
      → P (typed expected now key f s).0
  unfolding typed
  typed_keeps expected now f s h p =
      unless_keeps (type_clash (Store.type_of now key s).1 expected) f (Store.type_of now key s).0 h
        (KeepsKeys.type_of_keeps c now s p)

  push_all_keeps :
      (push : Bytes → Bytes → Store → Store × ℕ) (vs : List Bytes) (len : ℕ) (s : Store)
      → ((v : Bytes) (t : Store) → P t → P (push key v t).0)
      → P s
      → P (L.push_all push key vs len s).0
  unfolding L.push_all
  push_all_keeps push [] len s h p = p
  push_all_keeps push (v ∷ vs) len s h p =
      push_all_keeps push vs (push key v s).1 (push key v s).0 h (h v s p)

push_back_grows : (b : Bytes) (xs : List Bytes) → is_empty (Lists.push_back b xs) ≡ false
push_back_grows b [] = refl
push_back_grows b (x ∷ xs) = refl

pub outcome_keeps {ℓ} :
    {A : Type ℓ} (P : Store → Type 0) (f : A → Value) (r : Store × Outcome A)
    → P r.0
    → P (answer_outcome f r).0
outcome_keeps P f (s, returns a) p = p
outcome_keeps P f (s, panics) p = p

module _ {fl : Platform} {Q : StoredValue → Type 0} (P : Store → Type 0) (a : Admits fl Q) where
  set_fields_keeps :
      {key : Bytes} (c : Closed Q P key) (now : Instant) (fs : List (Bytes × Bytes)) (s : Store)
      → P s
      → P (H.set_fields now key fs s).0
  unfolding H.set_fields
  set_fields_keeps c now [] s p = p
  set_fields_keeps {key} c now ((f, v) ∷ fs) s p =
      set_fields_keeps c now fs (Hashes.h_set now key f v s).0
        (KeepsCollections.h_set_keeps a c now f v s p)

  add_scores_keeps :
      {key : Bytes} (c : Closed Q P key) (now : Instant) (es : List (Score × Bytes)) (s : Store)
      → P s
      → P (Z.add_scores fl now key es s).0
  unfolding Z.add_scores
  add_scores_keeps c now [] s p = p
  add_scores_keeps {key} c now ((x, m) ∷ es) s p =
      add_scores_keeps c now es (SortedSets.z_add fl now key x m s).0
        (KeepsCollections.z_add_keeps a c now x m s p)

  set_all_keeps :
      (now : Instant) (es : List (Bytes × Bytes)) (s : Store)
      → All (Closed Q P) (map (λ e. e.0) es)
      → P s
      → P (S.set_all now es s)
  unfolding S.set_all
  set_all_keeps now [] s c p = p
  set_all_keeps now ((k, v) ∷ es) s c p =
      set_all_keeps now es (Strings.set now k v none s) c.1
        (KeepsValues.set_keeps a c.0 now v none s p)

  get_all_keeps :
      (now : Instant) (ks : List Bytes) (s : Store)
      → All (Closed Q P) ks
      → P s
      → P (S.get_all now ks s).0
  unfolding S.get_all
  get_all_keeps now [] s c p = p
  get_all_keeps now (k ∷ ks) s c p =
      get_all_keeps now ks (Strings.get now k s).0 c.1 (KeepsKeys.get_keeps c.0 now s p)

  count_existing_keeps :
      (now : Instant) (ks : List Bytes) (s : Store)
      → All (Closed Q P) ks
      → P s
      → P (K.count_existing now ks s).0
  unfolding K.count_existing
  count_existing_keeps now [] s c p = p
  count_existing_keeps now (k ∷ ks) s c p =
      count_existing_keeps now ks (Store.exists now k s).0 c.1 (KeepsKeys.exists_keeps c.0 now s p)

  pub forget_all_keeps :
      (ks : List Bytes) (s : Store) → All (Closed Q P) ks → P s → P (Store.forget_all ks s).0
  unfolding Store.forget_all
  forget_all_keeps [] s c p = p
  forget_all_keeps (k ∷ ks) s c p = forget_all_keeps ks (forget k s) c.1 (c.0.on_forget s p)

  set_handled :
      {key : Bytes} (c : Closed Q P key) (now : Instant) (v : Bytes) (px : Option ℕ)
      (n : SetCondition) (s : Store)
      → P s
      → P (S.handle_set now key v px n s).0
  unfolding S.handle_set
  set_handled {key} c now v px n s p =
      let q : P (Store.exists now key s).0 = KeepsKeys.exists_keeps c now s p in
      ground (arith, q, KeepsValues.set_keeps a c now v px (Store.exists now key s).0 q)

  handle_keys_keeps :
      (now : Instant) (pattern : Bytes) (s : Store)
      → P (Store.keys now s).0
      → P s
      → P (K.handle_keys now pattern s).0
  unfolding K.handle_keys
  handle_keys_keeps now pattern s h p = elim (Bool-cases (beq pattern (codes "*"))) [
    | inl star ↦ rw star h
    | inr other ↦ rw other p
  ]

  pub execute_keeps :
      (info : Metrics → Bytes) (now : Instant) (c : Command) (s : Store)
      → HasMembers c
      → All (Closed Q P) (keys_of c)
      → (IsWhole c → P (Store.flush_all s) × P (Store.keys now s).0)
      → P s
      → P (execute fl info now c s).0
  unfolding execute L.handle_l_push L.handle_r_push L.handle_l_pop L.handle_r_pop L.handle_l_len
      L.handle_l_index L.handle_l_range S.handle_get S.handle_append S.handle_strlen S.handle_incr
      S.handle_decr S.handle_mget S.handle_mset K.handle_type K.handle_expire K.handle_ttl
      K.handle_pttl K.handle_exists K.handle_del E.handle_s_add E.handle_s_rem E.handle_s_members
      E.handle_s_is_member E.handle_s_card H.handle_h_set H.handle_h_get H.handle_h_del
      H.handle_h_len H.handle_h_exists H.handle_h_keys H.handle_h_vals H.handle_h_get_all
      Z.handle_z_add Z.handle_z_range Z.handle_z_rev_range Z.handle_z_score Z.handle_z_rem
      Z.handle_z_card Z.handle_z_count Lists.l_push Lists.r_push Lists.l_pop Lists.r_pop
      Strings.incr Strings.decr Hashes.h_get Hashes.h_get_all Hashes.h_len Hashes.h_exists
      Hashes.h_keys Hashes.h_vals Sets.s_members Sets.s_is_member Sets.s_card Store.del
      E.handle_s_pop K.handle_flushall
  execute_keeps info now Command.ping s m c w p = p
  execute_keeps info now (Command.echo _) s m c w p = p
  execute_keeps info now Command.quit s m c w p = p
  execute_keeps info now Command.info s m c w p = p
  execute_keeps info now Command.flush_all s m c w p = (w tt).0
  execute_keeps info now (Command.keys pattern) s m c w p =
      handle_keys_keeps now pattern s (w tt).1 p
  execute_keeps info now (Command.get k) s m c w p =
      typed_keeps c.0 _ now _ s (λ t q. KeepsKeys.get_keeps c.0 now t q) p
  execute_keeps info now (Command.set k v px n) s m c w p = set_handled c.0 now v px n s p
  execute_keeps info now (Command.del ks) s m c w p = forget_all_keeps ks s c p
  execute_keeps info now (Command.exists ks) s m c w p = count_existing_keeps now ks s c p
  execute_keeps info now (Command.expire k ms) s m c w p = KeepsKeys.expire_keeps c.0 now ms s p
  execute_keeps info now (Command.ttl k) s m c w p = KeepsKeys.ttl_keeps c.0 now s p
  execute_keeps info now (Command.pttl k) s m c w p = KeepsKeys.pttl_keeps c.0 now s p
  execute_keeps info now (Command.incr k) s m c w p =
      KeepsValues.adjust_counter_keeps a c.0 now (pos 1) s p
  execute_keeps info now (Command.decr k) s m c w p =
      KeepsValues.adjust_counter_keeps a c.0 now (negsuc 0) s p
  execute_keeps info now (Command.m_get ks) s m c w p = get_all_keeps now ks s c p
  execute_keeps info now (Command.m_set es) s m c w p = set_all_keeps now es s c p
  execute_keeps info now (Command.append k v) s m c w p =
      typed_keeps c.0 _ now _ s (λ t q. KeepsValues.append_keeps a c.0 now v t q) p
  execute_keeps info now (Command.str_len k) s m c w p =
      typed_keeps c.0 _ now _ s (λ t q. KeepsKeys.strlen_keeps c.0 now t q) p
  execute_keeps info now (Command.type k) s m c w p = KeepsKeys.type_of_keeps c.0 now s p
  execute_keeps info now (Command.l_push k vs) s m c w p =
      typed_keeps c.0 _ now _ s
        (λ t q.
          push_all_keeps c.0 (Lists.push_with Lists.push_front now) (reverse vs) 0 t
            (λ v u r. KeepsValues.push_keeps a c.0 Lists.push_front (λ b xs. refl) now v u r) q)
        p
  execute_keeps info now (Command.r_push k vs) s m c w p =
      typed_keeps c.0 _ now _ s
        (λ t q.
          push_all_keeps c.0 (Lists.push_with Lists.push_back now) vs 0 t
            (λ v u r. KeepsValues.push_keeps a c.0 Lists.push_back push_back_grows now v u r) q)
        p
  execute_keeps info now (Command.l_pop k) s m c w p =
      typed_keeps c.0 _ now _ s (λ t q. KeepsCollections.pop_keeps a c.0 Lists.pop_front now t q) p
  execute_keeps info now (Command.r_pop k) s m c w p =
      typed_keeps c.0 _ now _ s (λ t q. KeepsCollections.pop_keeps a c.0 Lists.pop_back now t q) p
  execute_keeps info now (Command.l_len k) s m c w p =
      typed_keeps c.0 _ now _ s (λ t q. KeepsCollections.l_len_keeps a c.0 now t q) p
  execute_keeps info now (Command.l_index k i) s m c w p =
      typed_keeps c.0 _ now _ s (λ t q. KeepsCollections.l_index_keeps a c.0 now i t q) p
  execute_keeps info now (Command.l_range k i j) s m c w p =
      typed_keeps c.0 _ now _ s
        (λ t q. outcome_keeps P _ _ (KeepsCollections.l_range_keeps a c.0 now i j t q)) p
  execute_keeps info now (Command.s_add k ms) s m c w p =
      typed_keeps c.0 _ now _ s (λ t q. KeepsCollections.s_add_keeps a c.0 now ms t m q) p
  execute_keeps info now (Command.s_rem k ms) s m c w p =
      typed_keeps c.0 _ now _ s (λ t q. KeepsCollections.s_rem_keeps a c.0 now ms t q) p
  execute_keeps info now (Command.s_members k) s m c w p =
      typed_keeps c.0 _ now _ s
        (λ t q. KeepsCollections.read_members_keeps a c.0 [] (λ ms. Dict.keys ms) now t q) p
  execute_keeps info now (Command.s_card k) s m c w p =
      typed_keeps c.0 _ now _ s
        (λ t q. KeepsCollections.read_members_keeps a c.0 0 (λ ms. length ms) now t q) p
  execute_keeps info now (Command.s_is_member k x) s m c w p =
      typed_keeps c.0 _ now _ s
        (λ t q.
          KeepsCollections.read_members_keeps a c.0 false (λ ms. Dict.contains_key ms x) now t q)
        p
  execute_keeps info now (Command.s_pop k (some n)) s m c w p =
      typed_keeps c.0 _ now _ s (λ t q. KeepsCollections.s_pop_keeps a c.0 now n t q) p
  execute_keeps info now (Command.s_pop k none) s m c w p =
      typed_keeps c.0 _ now _ s (λ t q. KeepsCollections.s_pop_keeps a c.0 now 1 t q) p
  execute_keeps info now (Command.h_set k fs) s m c w p =
      typed_keeps c.0 _ now _ s (λ t q. set_fields_keeps c.0 now fs t q) p
  execute_keeps info now (Command.h_get k f) s m c w p =
      typed_keeps c.0 _ now _ s
        (λ t q. KeepsCollections.read_fields_keeps a c.0 none (λ h. Dict.get h f) now t q) p
  execute_keeps info now (Command.h_exists k f) s m c w p =
      typed_keeps c.0 _ now _ s
        (λ t q. KeepsCollections.read_fields_keeps a c.0 false (λ h. Dict.contains_key h f) now t q)
        p
  execute_keeps info now (Command.h_del k fs) s m c w p =
      typed_keeps c.0 _ now _ s (λ t q. KeepsCollections.h_del_keeps a c.0 now fs t q) p
  execute_keeps info now (Command.h_len k) s m c w p =
      typed_keeps c.0 _ now _ s
        (λ t q. KeepsCollections.read_fields_keeps a c.0 0 (λ h. length h) now t q) p
  execute_keeps info now (Command.h_keys k) s m c w p =
      typed_keeps c.0 _ now _ s
        (λ t q. KeepsCollections.read_fields_keeps a c.0 [] (λ h. Dict.keys h) now t q) p
  execute_keeps info now (Command.h_vals k) s m c w p =
      typed_keeps c.0 _ now _ s
        (λ t q. KeepsCollections.read_fields_keeps a c.0 [] (λ h. Dict.values h) now t q) p
  execute_keeps info now (Command.h_get_all k) s m c w p =
      typed_keeps c.0 _ now _ s
        (λ t q. KeepsCollections.read_fields_keeps a c.0 [] (λ h. h) now t q) p
  execute_keeps info now (Command.z_add k es) s m c w p =
      typed_keeps c.0 _ now _ s (λ t q. add_scores_keeps c.0 now es t q) p
  execute_keeps info now (Command.z_range k i j) s m c w p =
      typed_keeps c.0 _ now _ s (λ t q. KeepsCollections.z_range_keeps a c.0 now i j t q) p
  execute_keeps info now (Command.z_rev_range k i j) s m c w p =
      typed_keeps c.0 _ now _ s (λ t q. KeepsCollections.z_rev_range_keeps a c.0 now i j t q) p
  execute_keeps info now (Command.z_score k x) s m c w p =
      typed_keeps c.0 _ now _ s (λ t q. KeepsCollections.z_score_keeps a c.0 now x t q) p
  execute_keeps info now (Command.z_rem k ms) s m c w p =
      typed_keeps c.0 _ now _ s (λ t q. KeepsCollections.z_rem_keeps a c.0 now ms t q) p
  execute_keeps info now (Command.z_card k) s m c w p =
      typed_keeps c.0 _ now _ s (λ t q. KeepsCollections.z_card_keeps a c.0 now t q) p
  execute_keeps info now (Command.z_count k lo hi) s m c w p =
      typed_keeps c.0 _ now _ s
        (λ t q. outcome_keeps P _ _ (KeepsCollections.z_count_keeps a c.0 now lo hi t q)) p
