-- ===== src/Tests/Connections.antt =====
-- The requests for connections at concrete inputs.
use dmsfwk.Prelude.{◌≡◌, refl, true, none, some, [], lookup, arith}
use dmsfwk.AllConnect.{
  AllConnect, pass, dms_connect_apply_timeout_failed, wait_all_connect_apply_cb, is_pass,
}
use dmsfwk.AllConnect.Decisions.{after_refusal, apply_result-misdirected}

abbrev nothing_asked : AllConnect
nothing_asked = record {
  has_library = true;
  peer_connect_cb_queue = [];
  peer_connect_decision = [];
}

undecided : lookup 2 nothing_asked.peer_connect_decision ≡ none
unfolding lookup
undecided = refl

apply_result-misdirected_example :
    (lookup 4 (after_refusal 9 4 2 pass nothing_asked).peer_connect_decision ≡ some (is_pass pass))
    × ((wait_all_connect_apply_cb 2 (after_refusal 9 4 2 pass nothing_asked)).1
        ≡ dms_connect_apply_timeout_failed)
apply_result-misdirected_example =
    apply_result-misdirected 9 4 2 pass nothing_asked refl refl (λ e. omega (arith, e)) undecided
