-- ===== src/Keeps/Parsers.antt =====
-- Lemmas on the parsers of src/commands/mod.rs: the commands that they yield.
use fire_redis.Prelude.{
  ℤ, Bool, true, false, none, some, List, [], ◌∷◌, Bytes, if◌then◌else◌, length, ltb, ◌||◌, ◌%◌,
  ◌==◌,
}
use fire_redis.Platform.{Platform}
use fire_redis.Resp.{Value, simple_string, error, integer, bulk_string, array, null_array, null}
use fire_redis.Commands.Types.{Command}
use fire_redis.Commands.Args.{Result, ok, err, ◌>>=◌, bulk_to_bytes, collect}
use fire_redis.Commands.Parse as P
use fire_redis.Commands.Parse.{Parser, try_from, parsers, run_parser}
use fire_redis.Keeps.Named.{HasMembers}

-- A result is an error or a command whose SADD has a member.
abbrev pub Yields : Result Command → Type 0
Yields (ok c) = HasMembers c
Yields (err e) = Unit

pub bind-Yields :
    {A : Type 0} (r : Result A) (f : A → Result Command)
    → ((a : A) → Yields (f a))
    → Yields (r >>= f)
bind-Yields (ok a) f h = h a
bind-Yields (err e) f h = tt

collected :
    {A : Type 0} (r : Result A) (q : Result (List A)) (k : List A → Result Command)
    → ((a : A) (rest : List A) → Yields (k (a ∷ rest)))
    → Yields ((do a ← r; rest ← q; ok (a ∷ rest)) >>= k)
collected (err e) q k h = tt
collected (ok a) (err e) k h = tt
collected (ok a) (ok rest) k h = h a rest

-- A parser that yields such results.
abbrev pub Safe : Parser → Type 0
Safe p = (args : List Value) → Yields (p args)

pub parse_echo-Safe : Safe P.parse_echo
unfolding P.parse_echo
parse_echo-Safe [] = tt
parse_echo-Safe (a ∷ []) = tt
parse_echo-Safe (a ∷ bulk_string (some b) ∷ []) = tt
parse_echo-Safe (a ∷ bulk_string none ∷ []) = tt
parse_echo-Safe (a ∷ simple_string _ ∷ []) = tt
parse_echo-Safe (a ∷ error _ ∷ []) = tt
parse_echo-Safe (a ∷ integer _ ∷ []) = tt
parse_echo-Safe (a ∷ array _ ∷ []) = tt
parse_echo-Safe (a ∷ null_array ∷ []) = tt
parse_echo-Safe (a ∷ null ∷ []) = tt
parse_echo-Safe (a ∷ bulk_string (some b) ∷ w ∷ rest) = tt
parse_echo-Safe (a ∷ bulk_string none ∷ w ∷ rest) = tt
parse_echo-Safe (a ∷ simple_string _ ∷ w ∷ rest) = tt
parse_echo-Safe (a ∷ error _ ∷ w ∷ rest) = tt
parse_echo-Safe (a ∷ integer _ ∷ w ∷ rest) = tt
parse_echo-Safe (a ∷ array _ ∷ w ∷ rest) = tt
parse_echo-Safe (a ∷ null_array ∷ w ∷ rest) = tt
parse_echo-Safe (a ∷ null ∷ w ∷ rest) = tt

pub parse_key-Safe :
    (e : Value) (c : Bytes → Command) → ((k : Bytes) → HasMembers (c k)) → Safe (P.parse_key e c)
unfolding P.parse_key
parse_key-Safe e c h [] = tt
parse_key-Safe e c h (a ∷ []) = tt
parse_key-Safe e c h (a ∷ k ∷ []) = search bind-Yields
parse_key-Safe e c h (a ∷ k ∷ b ∷ rest) = tt

pub parse_set-Safe : Safe P.parse_set
unfolding P.parse_set
parse_set-Safe [] = tt
parse_set-Safe (a ∷ []) = tt
parse_set-Safe (a ∷ k ∷ []) = tt
parse_set-Safe (a ∷ k ∷ v ∷ rest) = search bind-Yields

pub parse_keys_list-Safe :
    (c : List Bytes → Command)
    → ((ks : List Bytes) → HasMembers (c ks))
    → Safe (P.parse_keys_list c)
unfolding P.parse_keys_list
parse_keys_list-Safe c h [] = tt
parse_keys_list-Safe c h (a ∷ []) = tt
parse_keys_list-Safe c h (a ∷ k ∷ ks) = search bind-Yields

pub parse_expire-Safe : Safe P.parse_expire
unfolding P.parse_expire
parse_expire-Safe [] = tt
parse_expire-Safe (a ∷ []) = tt
parse_expire-Safe (a ∷ k ∷ []) = tt
parse_expire-Safe (a ∷ k ∷ t ∷ []) = search bind-Yields
parse_expire-Safe (a ∷ k ∷ t ∷ b ∷ rest) = tt

pub guard-Yields :
    (b : Bool) (e : Value) (r : Result Command) → Yields r → Yields (if b then err e else r)
guard-Yields true e r h = tt
guard-Yields false e r h = h

pub even-Yields :
    (b : Bool) (e : Value) (r : Result Command) → Yields r → Yields (if b then r else err e)
even-Yields true e r h = h
even-Yields false e r h = tt

pub parse_mset-Safe : Safe P.parse_mset
unfolding P.parse_mset
parse_mset-Safe args =
    guard-Yields (ltb (length args) 3 || length args % 2 == 0) _ _ (search bind-Yields)

pub parse_append-Safe : Safe P.parse_append
unfolding P.parse_append
parse_append-Safe [] = tt
parse_append-Safe (a ∷ []) = tt
parse_append-Safe (a ∷ k ∷ []) = tt
parse_append-Safe (a ∷ k ∷ t ∷ []) = search bind-Yields
parse_append-Safe (a ∷ k ∷ t ∷ b ∷ rest) = tt

pub parse_flushall-Safe : Safe P.parse_flushall
unfolding P.parse_flushall
parse_flushall-Safe [] = tt
parse_flushall-Safe (a ∷ []) = tt
parse_flushall-Safe (a ∷ b ∷ rest) = tt

pub parse_key_bytes-Safe :
    (c : Bytes → List Bytes → Command)
    → ((k m : Bytes) (ms : List Bytes) → HasMembers (c k (m ∷ ms)))
    → Safe (P.parse_key_bytes c)
unfolding P.parse_key_bytes collect
parse_key_bytes-Safe c h [] = tt
parse_key_bytes-Safe c h (a ∷ []) = tt
parse_key_bytes-Safe c h (a ∷ k ∷ []) = tt
parse_key_bytes-Safe c h (a ∷ k ∷ v ∷ vs) = bind-Yields _ _ λ key.
    collected (bulk_to_bytes v) (collect bulk_to_bytes vs) (λ ms. ok (c key ms))
      (λ m ms. h key m ms)

pub parse_l_index-Safe : Safe P.parse_l_index
unfolding P.parse_l_index
parse_l_index-Safe [] = tt
parse_l_index-Safe (a ∷ []) = tt
parse_l_index-Safe (a ∷ k ∷ []) = tt
parse_l_index-Safe (a ∷ k ∷ t ∷ []) = search bind-Yields
parse_l_index-Safe (a ∷ k ∷ t ∷ b ∷ rest) = tt

pub parse_range-Safe :
    (c : Bytes → ℤ → ℤ → Command)
    → ((k : Bytes) (i j : ℤ) → HasMembers (c k i j))
    → Safe (P.parse_range c)
unfolding P.parse_range
parse_range-Safe c h [] = tt
parse_range-Safe c h (a ∷ []) = tt
parse_range-Safe c h (a ∷ k ∷ []) = tt
parse_range-Safe c h (a ∷ k ∷ i ∷ []) = tt
parse_range-Safe c h (a ∷ k ∷ i ∷ j ∷ []) = search bind-Yields
parse_range-Safe c h (a ∷ k ∷ i ∷ j ∷ b ∷ rest) = tt

pub parse_key_member-Safe :
    (c : Bytes → Bytes → Command)
    → ((k m : Bytes) → HasMembers (c k m))
    → Safe (P.parse_key_member c)
unfolding P.parse_key_member
parse_key_member-Safe c h [] = tt
parse_key_member-Safe c h (a ∷ []) = tt
parse_key_member-Safe c h (a ∷ k ∷ []) = tt
parse_key_member-Safe c h (a ∷ k ∷ t ∷ []) = search bind-Yields
parse_key_member-Safe c h (a ∷ k ∷ t ∷ b ∷ rest) = tt

pub parse_key_field-Safe :
    (c : Bytes → Bytes → Command)
    → ((k m : Bytes) → HasMembers (c k m))
    → Safe (P.parse_key_field c)
unfolding P.parse_key_field
parse_key_field-Safe c h [] = tt
parse_key_field-Safe c h (a ∷ []) = tt
parse_key_field-Safe c h (a ∷ k ∷ []) = tt
parse_key_field-Safe c h (a ∷ k ∷ t ∷ []) = search bind-Yields
parse_key_field-Safe c h (a ∷ k ∷ t ∷ b ∷ rest) = tt

pub parse_s_pop-Safe : Safe P.parse_s_pop
unfolding P.parse_s_pop
parse_s_pop-Safe [] = tt
parse_s_pop-Safe (a ∷ []) = tt
parse_s_pop-Safe (a ∷ k ∷ []) = search bind-Yields
parse_s_pop-Safe (a ∷ k ∷ t ∷ []) = search bind-Yields
parse_s_pop-Safe (a ∷ k ∷ t ∷ b ∷ rest) = tt

pub parse_h_set-Safe : Safe P.parse_h_set
unfolding P.parse_h_set
parse_h_set-Safe [] = tt
parse_h_set-Safe (a ∷ []) = tt
parse_h_set-Safe (a ∷ k ∷ []) = tt
parse_h_set-Safe (a ∷ k ∷ f ∷ []) = tt
parse_h_set-Safe (a ∷ k ∷ f ∷ v ∷ vs) = even-Yields (length vs % 2 == 0) _ _ (search bind-Yields)

pub parse_h_del-Safe : Safe P.parse_h_del
unfolding P.parse_h_del
parse_h_del-Safe [] = tt
parse_h_del-Safe (a ∷ []) = tt
parse_h_del-Safe (a ∷ k ∷ []) = tt
parse_h_del-Safe (a ∷ k ∷ f ∷ fs) = search bind-Yields

pub parse_z_add-Safe : (fl : Platform) → Safe (P.parse_z_add fl)
unfolding P.parse_z_add
parse_z_add-Safe fl [] = tt
parse_z_add-Safe fl (a ∷ []) = tt
parse_z_add-Safe fl (a ∷ k ∷ []) = tt
parse_z_add-Safe fl (a ∷ k ∷ f ∷ []) = tt
parse_z_add-Safe fl (a ∷ k ∷ f ∷ v ∷ vs) = even-Yields (length vs % 2 == 0) _ _ (search bind-Yields)

pub parse_z_count-Safe : (fl : Platform) → Safe (P.parse_z_count fl)
unfolding P.parse_z_count
parse_z_count-Safe fl [] = tt
parse_z_count-Safe fl (a ∷ []) = tt
parse_z_count-Safe fl (a ∷ k ∷ []) = tt
parse_z_count-Safe fl (a ∷ k ∷ i ∷ []) = tt
parse_z_count-Safe fl (a ∷ k ∷ i ∷ j ∷ []) = search bind-Yields
parse_z_count-Safe fl (a ∷ k ∷ i ∷ j ∷ b ∷ rest) = tt
