-- ===== src/Polr/Threads/Balance.antt =====
-- Over any schedule of requests to pkg/api/polr.go, the creates and the deletes of a key keep in step.
use policy_server.Prelude.{ℕ, ◌≡◌, refl, List, ◌+◌, ◌≤◌, arith}
use policy_server.Prelude.Texts.{Text}
use policy_server.Storage.{Storage}
use policy_server.Storage.Contract.{Contract}
use policy_server.Report.{Platform}
use policy_server.Polr.{key}
use policy_server.Polr.Threads.{Thread, advance, System, Step, pick, Schedule, begin, next}
use policy_server.Polr.Threads.Vacancy.{vacancy}
use policy_server.Polr.Threads.Counts.{
  total, total-append, total_le, is_delete, AreAsked, won, lost, winners, losers, lost_le_delete,
  asked-counts,
}
use policy_server.Polr.Threads.Race.{advance-Moves}

-- How many of the threads serve a `Delete`.
abbrev pub deletes : (P : Platform) (S : Storage) → List (Thread P S) → ℕ
deletes P S = total (is_delete P S)

module _ (P : Platform) (S : Storage) (C : Contract S) (k : Text) where
  -- How the counts and the key at `t` go with those at `s`.
  pub record Balanced (s t : System P S) : Type 0 where
    pub ready : C.Ready t.shared.store
    pub even :
        winners P S k t.threads + vacancy P S C k t.shared + losers P S k s.threads
        ≡ winners P S k s.threads + vacancy P S C k s.shared + losers P S k t.threads
    pub no_more : deletes P S t.threads ≤ deletes P S s.threads

  pub Step-Balanced : {s t : System P S} → C.Ready s.shared.store → Step P S s t → Balanced s t
  Step-Balanced {s} {t} ready (pick before p after was run now same) =
      let p' = (advance P S p s.shared).0 in
      let (ready', e, less, _) = advance-Moves P S C k p s.shared ready in
      record {
        ready = rw same ready';
        even =
            rw
              (
                was,
                now,
                same,
                total-append (won P S k) before p after,
                total-append (won P S k) before p' after,
                total-append (lost P S k) before p after,
                total-append (lost P S k) before p' after,
              )
              (omega (arith, e));
        no_more =
            rw
              (
                was,
                now,
                total-append (is_delete P S) before p after,
                total-append (is_delete P S) before p' after,
              )
              (omega (arith, less));
      }

  -- Only a `Delete` frees the key.
  pub Step-kept :
      {s t : System P S}
      → C.Ready s.shared.store
      → Step P S s t
      → vacancy P S C k t.shared ≤ vacancy P S C k s.shared + deletes P S s.threads
  Step-kept {s} {t} ready (pick before p after was run now same) =
      let (_, _, _, kept) = advance-Moves P S C k p s.shared ready in
      rw (was, same, total-append (is_delete P S) before p after) (omega (arith, kept))

  -- At the start of a schedule.
  at_start : (s : System P S) → C.Ready s.shared.store → Balanced s s
  at_start s ready = record { ready = ready; even = refl; no_more = omega arith }

  pub Schedule-Balanced :
      {s t : System P S} {n : ℕ} → C.Ready s.shared.store → Schedule P S s n t → Balanced s t
  Schedule-Balanced {s} ready begin = at_start s ready
  Schedule-Balanced ready (next c e) =
      let b = Schedule-Balanced ready c in
      let b' = Step-Balanced b.ready e in
      let even = b.even in
      let even' = b'.even in
      let less = b.no_more in
      let less' = b'.no_more in
      record {
        ready = b'.ready;
        even = omega (arith, even, even');
        no_more = omega (arith, less, less');
      }

module _ (P : Platform) (S : Storage) (C : Contract S) (name namespace : Text) where
  abbrev pub the_key : Text
  the_key = key P.group_version name namespace

  -- Over a ready storage, for any `Create`s, `Update`s (forced ones too) and `Delete`s that run at
  -- once, at any point of any schedule the key of a name and a namespace has been created as often
  -- as removed, once more if it was free at the start and is taken, and once less if it was taken
  -- and is free. No more of them have removed it than serve a `Delete`.
  pub threads_balance :
      {n : ℕ} (s t : System P S)
      → C.Ready s.shared.store
      → AreAsked P S s.threads
      → Schedule P S s n t
      → (winners P S the_key t.threads + vacancy P S C the_key t.shared
          ≡ losers P S the_key t.threads + vacancy P S C the_key s.shared)
        × (losers P S the_key t.threads ≤ deletes P S s.threads)
  threads_balance s t ready asked c =
      let b = Schedule-Balanced P S C the_key ready c in
      let even = b.even in
      let less = b.no_more in
      let (none_won, none_lost) = asked-counts P S the_key s.threads asked in
      let few =
        total_le (lost P S the_key) (is_delete P S) t.threads (lost_le_delete P S the_key) in
      (omega (arith, even, none_won, none_lost), omega (arith, less, few))
