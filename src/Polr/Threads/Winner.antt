-- ===== src/Polr/Threads/Winner.antt =====
-- Requests to pkg/api/polr.go that race for one key: who creates it.
use policy_server.Prelude.{ℕ, ◌≡◌, refl, ◌⊎◌, inl, inr, Option, none, some, ◌+◌, arith}
use policy_server.Prelude.Texts.{Text}
use policy_server.Storage.{Storage}
use policy_server.Storage.Contract.{Contract}
use policy_server.Report.{Platform}
use policy_server.Handler.{State}
use policy_server.Polr.{key}
use policy_server.Polr.Reads.{held}
use policy_server.Polr.Progress.{Encodes}
use policy_server.Polr.Threads.{System, Schedule}
use policy_server.Polr.Threads.Ends.{AreFinished}
use policy_server.Polr.Threads.Vacancy.{vacant, vacancy}
use policy_server.Polr.Threads.Counts.{AreAsked, winners}
use policy_server.Polr.Threads.Balance.{deletes, threads_balance}
use policy_server.Polr.Threads.Aimed.{HasAimed, Schedule-Pending, finished-not_aimed}

module _ (P : Platform) (S : Storage) (C : Contract S) (name namespace : Text) where
  abbrev the_key : Text
  the_key = key P.group_version name namespace

  free-vacant : (s : State P S) → held P S C name namespace s ≡ none → vacancy P S C the_key s ≡ 1
  unfolding vacant
  free-vacant s h = rw h refl

  -- Over a ready storage where the key of a name and a namespace is free, whatever `Create`s and
  -- `Update`s, and no `Delete`, run at once, at any point of any schedule either none has created
  -- a report of the key, which is free, or exactly one has, and it is taken.
  pub create_race :
      {n : ℕ} (s t : System P S)
      → C.Ready s.shared.store
      → AreAsked P S s.threads
      → deletes P S s.threads ≡ 0
      → held P S C name namespace s.shared ≡ none
      → Schedule P S s n t
      → ((winners P S the_key t.threads ≡ 0) × (held P S C name namespace t.shared ≡ none))
        ⊎ ((winners P S the_key t.threads ≡ 1)
            × ((d : Text) × (held P S C name namespace t.shared ≡ some d)))
  unfolding vacant
  create_race s t ready asked none_deleted free c =
      let (even, few) = threads_balance P S C name namespace s t ready asked c in
      let one = free-vacant s.shared free in
      let total : winners P S the_key t.threads + vacancy P S C the_key t.shared ≡ 1 =
        omega (arith, even, few, none_deleted, one) in
      sort (held P S C name namespace t.shared) total
    where
      sort :
          (x : Option Text)
          → winners P S the_key t.threads + vacant x ≡ 1
          → ((winners P S the_key t.threads ≡ 0) × (x ≡ none))
            ⊎ ((winners P S the_key t.threads ≡ 1) × ((d : Text) × (x ≡ some d)))
      sort none e = inl (omega (arith, e), refl)
      sort (some d) e = inr (omega (arith, e), (d, refl))

  -- Over a ready storage, if every report encodes, the key is free, none of the requests is a
  -- `Delete`, and one is a `Create`, no dry run, of a report of that key that passes validation,
  -- then in any schedule that runs all requests to their ends exactly one `Create` of the key has
  -- succeeded, and the key is taken.
  pub create_race_won :
      {n : ℕ} (s t : System P S)
      → Encodes P
      → C.Ready s.shared.store
      → AreAsked P S s.threads
      → deletes P S s.threads ≡ 0
      → held P S C name namespace s.shared ≡ none
      → HasAimed P S C the_key s.threads
      → Schedule P S s n t
      → AreFinished P S t.threads
      → (winners P S the_key t.threads ≡ 1)
        × ((d : Text) × (held P S C name namespace t.shared ≡ some d))
  unfolding vacant
  create_race_won s t encodes ready asked none_deleted free aimed c all =
      elim (create_race s t ready asked none_deleted free c) [
        | inr done ↦ done
        | inl (_, still_free) ↦
            elim (Schedule-Pending P S C the_key encodes ready none_deleted c (inr aimed)) [
              | inl gone ↦
                  let one = free-vacant t.shared still_free in absurd (omega (arith, gone, one))
              | inr h ↦ absurd (finished-not_aimed P S C the_key t.threads all h)
            ]
      ]
