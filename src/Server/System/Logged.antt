-- ===== src/Server/System/Logged.antt =====
-- The append-only file while the whole server runs (src/server.rs, src/persistence/manager.rs).
use fire_redis.Prelude.{
  ℕ, zero, suc, ◌≤◌, ◌≡◌, refl, sym, ap, ◌∙◌, subst, Option, none, some, List, [], ◌∷◌, ◌++◌, arith,
  length, take, get_elem?, append_assoc, append-nil, max_u64,
}
use fire_redis.Resp.{Value, encode}
use fire_redis.Store.{Store}
use fire_redis.Persistence.Aof.{encode_all}
use fire_redis.Persistence.Manager as P
use fire_redis.Persistence.Manager.{
  Disk, PersistenceManager, SaveTimes, load_on_startup, from_aof, content_of,
}
use fire_redis.Persistence.Manager.Restart.{IsAt, process_aof-IsAt, encode_all-append}
use fire_redis.Server.{Journal}
use fire_redis.Server.System.Tasks.{Leaves, fsync-Leaves}
use fire_redis.Server.System.{System, write_next, with_manager, sent_of, counting}

module _ {A : Type 0} where
  none-some : (x : A) → none ≡ some x → ⊥
  none-some x e = cc

  take-suc :
      (xs : List A) (n : ℕ) (x : A)
      → get_elem? xs n ≡ some x
      → (take (suc n) xs ≡ take n xs ++ x ∷ []) × (suc n ≤ length xs)
  take-suc [] n x e = absurd (none-some x e)
  take-suc (y ∷ ys) zero x e = let u : y ≡ x = cc in (ap (λ t. t ∷ []) u, omega arith)
  take-suc (y ∷ ys) (suc n) x e =
      let (p, q) = take-suc ys n x e in (ap (λ t. y ∷ t) p, omega (arith, q))

  pub take_within : (n : ℕ) (xs ys : List A) → n ≤ length xs → take n (xs ++ ys) ≡ take n xs
  take_within zero xs ys h = refl
  take_within (suc n) [] ys h = absurd (omega (arith, h))
  take_within (suc n) (x ∷ xs) ys h = ap (λ t. x ∷ t) (take_within n xs ys (omega arith))

-- The file holds the old log and what the writer's task took of the writes; the channel has them all.
pub record IsLogged (old ws : List Value) (sys : System) : Type 0 where
  pub journal : Journal
  pub has_journal : sys.server.journal ≡ some journal
  pub has_sent : journal.logged ≡ some ws
  pub is_count : journal.dirty_counter ≤ max_u64
  pub within : sys.written ≤ length ws
  pub manager : PersistenceManager
  pub has_manager : sys.manager ≡ some manager
  pub at : IsAt (encode_all (old ++ take sys.written ws)) manager

sent_of_logged :
    (o : Option Journal) (j : Journal) (ws : List Value)
    → o ≡ some j
    → j.logged ≡ some ws
    → sent_of o ≡ ws
sent_of_logged o j ws e l = ap sent_of e ∙ rw l refl

logged_more :
    (old ws : List Value) (n : ℕ) (c : Value)
    → get_elem? ws n ≡ some c
    → encode_all (old ++ take n ws) ++ encode c [] ≡ encode_all (old ++ take (suc n) ws)
unfolding encode_all
logged_more old ws n c e =
    ap (λ b. encode_all (old ++ take n ws) ++ b) (sym (append-nil (encode c [])))
    ∙ sym (encode_all-append (old ++ take n ws) (c ∷ []))
    ∙ ap encode_all
        (append_assoc old (take n ws) (c ∷ []) ∙ ap (λ t. old ++ t) (sym (take-suc ws n c e).0))

module _ {old ws : List Value} where
  -- The journal, the manager and the number of commands written are as before.
  pub same-IsLogged :
      {sys next : System}
      → IsLogged old ws sys
      → next.server.journal ≡ sys.server.journal
      → next.manager ≡ sys.manager
      → next.written ≡ sys.written
      → IsLogged old ws next
  same-IsLogged h j m n = record {
    journal = h.journal;
    has_journal = j ∙ h.has_journal;
    has_sent = h.has_sent;
    is_count = h.is_count;
    within = omega (arith, n, h.within);
    manager = h.manager;
    has_manager = m ∙ h.has_manager;
    at = subst (λ k. IsAt (encode_all (old ++ take k ws)) h.manager) (sym n) h.at;
  }

  pub write-IsLogged :
      {sys : System} (c : Value) (m : PersistenceManager)
      → IsLogged old ws sys
      → sys.manager ≡ some m
      → get_elem? (sent_of sys.server.journal) sys.written ≡ some c
      → IsLogged old ws (write_next c m sys)
  unfolding write_next
  write-IsLogged {sys} c m h e g =
      let ours : h.manager ≡ m = let u : some h.manager ≡ some m = sym h.has_manager ∙ e in cc in
      let all : sent_of sys.server.journal ≡ ws =
        sent_of_logged sys.server.journal h.journal ws h.has_journal h.has_sent in
      let next : get_elem? ws sys.written ≡ some c =
        ap (λ t. get_elem? t sys.written) (sym all) ∙ g in
      record {
        journal = h.journal;
        has_journal = h.has_journal;
        has_sent = h.has_sent;
        is_count = h.is_count;
        within = (take-suc ws sys.written c next).1;
        manager = P.process_aof c m;
        has_manager = refl;
        at =
            subst (λ b. IsAt b (P.process_aof c m)) (logged_more old ws sys.written c next)
              (process_aof-IsAt c (encode_all (old ++ take sys.written ws)) m
                (subst (IsAt (encode_all (old ++ take sys.written ws))) ours h.at));
      }

  pub task-IsLogged :
      {sys : System} (task : PersistenceManager × Store → PersistenceManager × Store) (j : Journal)
      (m : PersistenceManager)
      → ((s : Store) → Leaves (counting j m) (task (counting j m, s)).0)
      → IsLogged old ws sys
      → sys.server.journal ≡ some j
      → sys.manager ≡ some m
      → IsLogged old ws (with_manager task j m sys)
  unfolding with_manager
  task-IsLogged {sys} task j m k h ej em =
      let ours : h.manager ≡ m = let u : some h.manager ≡ some m = sym h.has_manager ∙ em in cc in
      let own : h.journal ≡ j = let u : some h.journal ≡ some j = sym h.has_journal ∙ ej in cc in
      let (a, b) = k sys.server.store in
      record {
        journal = record j {
          dirty_counter = (task (counting j m, sys.server.store)).0.dirty_counter;
        };
        has_journal = refl;
        has_sent = ap (λ i. i.logged) (sym own) ∙ h.has_sent;
        is_count = b (subst (λ i. i.dirty_counter ≤ max_u64) own h.is_count);
        within = h.within;
        manager = (task (counting j m, sys.server.store)).0;
        has_manager = refl;
        at = a _ (subst (IsAt (encode_all (old ++ take sys.written ws))) ours h.at);
      }

  pub flush-IsLogged :
      {sys : System} (m : PersistenceManager)
      → IsLogged old ws sys
      → sys.manager ≡ some m
      → IsLogged old ws (record sys { manager = some (P.fsync_aof m) })
  flush-IsLogged {sys} m h e =
      let ours : h.manager ≡ m = let u : some h.manager ≡ some m = sym h.has_manager ∙ e in cc in
      record {
        journal = h.journal;
        has_journal = h.has_journal;
        has_sent = h.has_sent;
        is_count = h.is_count;
        within = h.within;
        manager = P.fsync_aof m;
        has_manager = refl;
        at =
            (fsync-Leaves m).0 _ (subst (IsAt (encode_all (old ++ take sys.written ws))) ours h.at);
      }
