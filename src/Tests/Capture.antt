-- ===== src/Tests/Capture.antt =====
-- A message of a known sender and one of an unknown sender.
use native.Mathlib.Decide.{ℕ_discrete}
use islands_kernel.Base.{
  ℕ, String, ◌≡◌, ◌⊎◌, refl, false, some, [], ◌∷◌, Eq, ok, err, pair_eq, option_eq, string_eq,
}
use islands_kernel.Base.Dict.{lookup, insert, find}
use islands_kernel.Capture.Classify.{Runner, classify, is_space, is_line_end}
use islands_kernel.Capture.Bridge
use islands_kernel.Capture.Bridge.{Entry, Message, Outside, BridgeDeps, handler}
use islands_kernel.Capture.Named.{IsNamed}
use islands_kernel.Capture.Handled.{skip, IsRouted, handler_cases}

instance unfoldable number_eq : Eq ℕ
number_eq = record { dec = ℕ_discrete }

-- The world counts the processes that were run.
abbrev outside : Outside
outside = record {
  World = ℕ;
  Plan = String;
  run = λ args input n.
      (some (record { returncode = 0; stdout = "delegate" }), Prim.Native.Nat.suc n);
  dumps = λ payload. payload.today;
  loads = λ out. some (some out);
  no_plan = "";
}

abbrev runner : Runner ℕ
runner bin prompt n = (some " personal-task\nso it is\n", n)

abbrev entry : Entry ℕ
entry = record {
  channel = "telegram";
  channel_user_id = 111;
  principal = "prn_sam";
  org = "org_caput";
}

abbrev deps : BridgeDeps outside ℕ
deps = record {
  by_key = Bridge.principal_map (entry ∷ []);
  allowed_types = "meal" ∷ "personal-task" ∷ [];
  claude_bin = "claude";
  route_mjs = "route.mjs";
  vault_root = "/tmp/vault";
  default_privacy = "private";
  classify_runner = some runner;
  node_bin = "node";
}

abbrev message_from : ℕ → Message ℕ
message_from user = record {
  text = some "kop mjolk";
  sender = some (record { channel = some "telegram"; channel_user_id = some user });
  captured_at = some "2025-06-15T12:26:40Z";
}

classify_in_set :
    classify runner "x" ("meal" ∷ "personal-task" ∷ []) "claude" 0 ≡ ("personal-task", 0)
unfolding classify find is_space is_line_end
classify_in_set = refl

classify_outside_set : classify runner "x" ("meal" ∷ []) "claude" 0 ≡ ("unclassifiable", 0)
unfolding classify find is_space is_line_end
classify_outside_set = refl

today_from_prefix : Bridge.today_from (some "2025-06-15T12:26:40Z") ≡ "2025-06-15"
unfolding Bridge.today_from
today_from_prefix = refl

handler_routes : handler outside deps (message_from 111) 0 ≡ (
  ok (record {
    principal = some "prn_sam";
    org = some "org_caput";
    type = some "personal-task";
    plan = "delegate";
    skipped = false;
  }),
  1,
)
unfolding handler Bridge.principal_map number_eq lookup insert pair_eq option_eq string_eq
    ℕ_discrete find is_space is_line_end
handler_routes = refl

handler_cases_example :
    let (answer, after) = handler outside deps (message_from 111) 0 in
    (((ident : Bridge.Identity) → ¬ IsNamed (some "telegram", some 111) ident (entry ∷ []))
      × ((answer, after) ≡ skip outside deps (entry ∷ []) (message_from 111) 0))
    ⊎ ((ident : Bridge.Identity) × IsNamed (some "telegram", some 111) ident (entry ∷ [])
        × (IsRouted outside deps (entry ∷ []) (message_from 111) 0 ident answer
            ⊎ ((e : Bridge.RouteError) × (answer ≡ err e))))
handler_cases_example = handler_cases outside deps (entry ∷ []) (message_from 111) 0 refl
