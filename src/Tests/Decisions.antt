-- ===== src/Tests/Decisions.antt =====
-- An operator at the desk.
use pastel_marketplace.Base.{◌≡◌, refl, false, none, some, [], ◌∷◌, ◌++◌}
use pastel_marketplace.Base.Result.{ok, err, not_found}
use pastel_marketplace.Admin.Moderation.{Desk}
use pastel_marketplace.Admin.Audit.{Decision, resolves, run, entry_of, run-log}
use pastel_marketplace.Tests.Identity.Sessions.{signed_up}

abbrev desk : Desk
desk = record {
  reports =
      record {
        id = "r";
        content_type = "listing";
        content_id = "l";
        reason = "fake";
        is_dmca = false;
        status = "open";
        created_at = 1000;
      }
      ∷ [];
  appeals = [];
  waitlist = [];
  deletions = [];
  accounts = signed_up;
}

abbrev dismissed : Decision
dismissed = resolves "r" "dismissed" (some "not fake")

abbrev cleared : Desk
cleared = (run 5000 "op" dismissed desk).1

clears : run 5000 "op" dismissed desk ≡ (ok tt, cleared)
unfolding run
clears = refl

run-log_example :
    cleared.accounts.audit_log ≡ desk.accounts.audit_log ++ entry_of "op" dismissed ∷ []
run-log_example = run-log 5000 "op" dismissed desk cleared clears

-- A report that is missing is no entry.
misses :
    run 5000 "op" (resolves "x" "dismissed" none) desk
    ≡ (err (not_found "Content report not found."), desk)
unfolding run
misses = refl
