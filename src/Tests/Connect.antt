-- ===== src/Tests/Connect.antt =====
-- A connect to a provider, there and back.
use islands_kernel.Base.{◌≡◌, refl, none, some, [], ◌∷◌, string_eq, ok}
use islands_kernel.Base.Dict.{lookup}
use islands_kernel.Vault.Model.{Connection, rotating}
use islands_kernel.Vault.Store
use islands_kernel.Vault.Store.{get_connection}
use islands_kernel.Vault.Refresh.{AppCred}
use islands_kernel.Base.Split.{split_first}
use islands_kernel.Vault.State.{
  ConnectState, Codec, sign_state, verify_state, split_dot, verify_parts, is_dot,
}
use islands_kernel.Vault.Access.{app_cred_for}
use islands_kernel.Vault.Connect.{
  Service, Started, provider_of, start_connect, finish_connect, finish_verified, connected,
}
use islands_kernel.Vault.Connect.RoundTrip.{key_of_state}
use islands_kernel.Vault.App.{Claims, connect_authed, finish_authed}
use islands_kernel.Vault.App.Guarded.{connect_authed_any_org}

abbrev asked : ConnectState
asked = record { org = "acme"; provider = "gmail"; account = "ann"; principal = "alice" }

abbrev codec : Codec
codec = record { encode = λ payload. "body"; decode = λ body. some asked; mac = λ key body. "sig" }

abbrev app : AppCred
app = record { client_id = "c"; client_secret = "s"; redirect_uri = ""; scopes = "mail" ∷ [] }

abbrev service : Service
service = record {
  config = record {
    providers = ("gmail", rotating) ∷ [];
    app_creds = ("gmail", app) ∷ [];
    skew = 60000;
    connection_id = λ seed. "conn";
    words = λ s. s ∷ [];
  };
  codec = codec;
  state_key = "k";
  authorize_url = λ provider cred state challenge. "https://provider";
  exchange_code = λ provider code verifier cred now.
      ok (record { access_token = "a"; refresh_token = "r"; expires_at = 100; scope = "" });
}

abbrev begun : Started
begun = record { authorize_url = "https://provider"; state = "body.sig" }

started : start_connect service asked none ≡ ok begun
unfolding start_connect provider_of lookup string_eq app_cred_for sign_state
started = refl

abbrev caller : Claims
caller = record { sub = "alice"; org = some "umbrella"; aud = none }

started_by_caller :
    connect_authed
      (λ t. t)
      caller
      service
      "gmail"
      (record { org = some "acme"; account = some "ann"; code_challenge = none })
    ≡ ok begun
unfolding connect_authed
started_by_caller = rw (started, connect_authed) refl

finished_by_caller :
    (finish_authed
      (λ t. t)
      caller
      service
      (record { code = some "code"; state = some "body.sig"; code_verifier = none })
      9
      Store.empty).0
    ≡ ok "conn"
unfolding finish_authed finish_connect finish_verified connected provider_of lookup string_eq
    app_cred_for verify_state verify_parts split_dot split_first is_dot
finished_by_caller = refl

-- Alice of another org connects for acme.
connect_authed_any_org_example :
    (conn : Connection) × (get_connection
        (key_of_state asked)
        (finish_authed
          (λ t. t)
          caller
          service
          (record { code = some "code"; state = some "body.sig"; code_verifier = none })
          9
          Store.empty).1
      ≡ some conn)
    × (conn.id ≡ "conn")
    × (conn.created_by ≡ "alice")
unfolding is_dot
connect_authed_any_org_example =
    connect_authed_any_org (λ t. t) caller caller service "gmail" "acme" "ann" "code" none none
      begun 9 Store.empty "conn" refl refl started_by_caller finished_by_caller
