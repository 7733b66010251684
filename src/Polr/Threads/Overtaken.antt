-- ===== src/Polr/Threads/Overtaken.antt =====
-- Two `Update`s of one report of pkg/api/polr.go at once: what is lost, and what the watchers see last.
use mathlib.Core.List.{append_assoc}
use policy_server.Prelude.{List, ◌≡◌, refl, ap, ◌∙◌, none, some, [], ◌∷◌, ◌++◌}
use policy_server.Prelude.Texts.{Text}
use policy_server.Result.{ok}
use policy_server.Strconv.{ℤ, parse_int}
use policy_server.Storage.{Storage}
use policy_server.Storage.Contract.{Contract}
use policy_server.Report.{Platform, report}
use policy_server.Handler.{Call, ReportOf, State, decode, added, action}
use policy_server.Polr.Reads.{held}
use policy_server.Polr.Threads.{updates, UpdateRequest, update_asked, finished, Schedule, next}
use policy_server.Polr.Threads.Lost.{
  Rewrites, rewritten, both_write, pair, first_step, second_step, telling-advance,
}

module _ (P : Platform) (S : Storage) (C : Contract S) (name namespace : Text) (old : ReportOf P)
    (n : ℤ) where
  -- What the watchers are told of a report.
  abbrev pub told : ReportOf P → Call P
  told r = action added (report r)

  -- The report as the request would store it.
  abbrev pub new : {q : UpdateRequest P S} → Rewrites P S C name namespace old n q → ReportOf P
  new h = rewritten P S C name namespace old n h

  module _ (q1 q2 : UpdateRequest P S) (h1 : Rewrites P S C name namespace old n q1)
      (h2 : Rewrites P S C name namespace old n q2) (s : State P S) where
    -- Both requests succeed after eight steps, with these calls to the broadcaster, and the second one's bytes
    -- are stored.
    pub record EndsWith (calls : List (Call P)) : Type 0 where
      pub last : State P S
      pub schedule :
          Schedule P S (pair P S C name namespace old n s (update_asked q1) (update_asked q2)) 8 (
            pair P S C name namespace old n last
              (finished updates (ok (report (new h1))))
              (finished updates (ok (report (new h2)))))
      pub made : last.calls ≡ s.calls ++ calls
      pub stands : held P S C name namespace last ≡ some h2.fresh_bytes

    -- Over a ready storage, for two accepted `Update`s of one stored report, neither forced nor
    -- dry runs, whose new forms keep its name and namespace and encode: both get the same resource
    -- version, and there are schedules of eight steps after which both have succeeded and the
    -- bytes of the second are all that is left; in one the watchers hear of the second form last,
    -- in another of the first.
    pub update_race :
        (d : Text)
        → C.Ready s.store
        → held P S C name namespace s ≡ some d
        → decode P d ≡ ok old
        → parse_int old.resource_version ≡ (n, none)
        → ((new h1).resource_version ≡ (new h2).resource_version)
          × EndsWith (told (new h1) ∷ told (new h2) ∷ [])
          × EndsWith (told (new h2) ∷ told (new h1) ∷ [])
    update_race d ready there dec rv =
        let w = both_write P S C name namespace old n q1 q2 h1 h2 d s ready there dec rv in
        let calls2 = w.no_calls in
        (
          refl,
          record {
            last = _;
            schedule =
                next
                  (next w.reached (
                    first_step P S C name namespace old n w.after _ _ _ _ tt
                      (telling-advance P S C name namespace old n (new h1) w.after)))
                  (second_step P S C name namespace old n _ _ _ _ _ tt
                    (telling-advance P S C name namespace old n (new h2) _));
            made =
                append_assoc w.after.calls _ _
                ∙ ap (λ l. l ++ (told (new h1) ∷ told (new h2) ∷ [])) calls2;
            stands = w.second_bytes;
          },
          record {
            last = _;
            schedule =
                next
                  (next w.reached (
                    second_step P S C name namespace old n w.after _ _ _ _ tt
                      (telling-advance P S C name namespace old n (new h2) w.after)))
                  (first_step P S C name namespace old n _ _ _ _ _ tt
                    (telling-advance P S C name namespace old n (new h1) _));
            made =
                append_assoc w.after.calls _ _
                ∙ ap (λ l. l ++ (told (new h2) ∷ told (new h1) ∷ [])) calls2;
            stands = w.second_bytes;
          },
        )
