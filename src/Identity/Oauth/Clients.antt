-- ===== src/Identity/Oauth/Clients.antt =====
-- identity/oauth/clients.py: registration and lookup of clients, and their redirect URIs.
use text.Mathlib.Text.{starts_with}
use islands_kernel.Base.{
  String, true, false, Option, none, some, List, [], ◌∷◌, string_eq, contains, Result, ok, err,
}
use islands_kernel.Base.Exec.{Exec, raise}
use islands_kernel.Identity.Model.{OauthClient, ClientType, public}
use islands_kernel.Identity.Store.{IdentityStore, put_oauth_client, get_oauth_client}

-- The `ValueError`s of identity/oauth/. `fetch_failed` is whatever the injected `fetch` raises.
pub data OauthError : Type 0 where
  unregistered_redirect_uri no_redirect_uris unknown_client fetch_failed : OauthError
  unknown_code code_expired audience_mismatch pkce_failed code_already_used : OauthError
  unknown_refresh refresh_expired missing_row not_ascii : OauthError

-- The client metadata document that `fetch` returns, as far as it is read.
pub record ClientDoc : Type 0 where
  pub redirect_uris : Option (List String)
  pub client_name : Option String

-- `fetch: Optional[Callable[[str], dict]]`; a call that raises gives `none`.
abbrev pub Fetch : Type 0
Fetch = Option (String → Option ClientDoc)

unfoldable pub register_client :
    String → String → List String → ClientType → IdentityStore → OauthClient × IdentityStore
register_client client_id name redirect_uris type store =
    let c : OauthClient = record {
      id = client_id;
      name = name;
      redirect_uris = redirect_uris;
      type = type;
      client_id_metadata_url = none;
    } in
    (c, put_oauth_client c store)

unfoldable pub validate_redirect_uri : OauthClient → String → Result OauthError (Unit {0})
validate_redirect_uri client redirect_uri = elim (contains client.redirect_uris redirect_uri) [
  | true ↦ ok tt
  | false ↦ err unregistered_redirect_uri
]

-- `doc.get("client_name", client_id)`
abbrev name_of : Option String → String → String
name_of none client_id = client_id
name_of (some name) client_id = name

-- The client of a metadata document, stored under its URL.
unfoldable pub adopt_client : String → ClientDoc → Exec IdentityStore OauthError OauthClient
adopt_client client_id doc store = elim doc.redirect_uris [
  | none ↦ (err no_redirect_uris, store)
  | some [] ↦ (err no_redirect_uris, store)
  | some (uri ∷ uris) ↦
      let c : OauthClient = record {
        id = client_id;
        name = name_of doc.client_name client_id;
        redirect_uris = uri ∷ uris;
        type = public;
        client_id_metadata_url = some client_id;
      } in
      (ok c, put_oauth_client c store)
]

-- `doc = fetch(client_id)`, where there is a `fetch`
unfoldable pub fetch_client : Fetch → String → Exec IdentityStore OauthError OauthClient
unfolding adopt_client
fetch_client none client_id = raise unknown_client
fetch_client (some fetch) client_id = elim (fetch client_id) [
  | none ↦ raise fetch_failed
  | some doc ↦ adopt_client client_id doc
]

unfoldable pub resolve_client : Fetch → String → Exec IdentityStore OauthError OauthClient
unfolding fetch_client
resolve_client fetch client_id store = elim (get_oauth_client client_id store) [
  | some existing ↦ (ok existing, store)
  | none ↦ elim (starts_with client_id "https://") [
    | true ↦ fetch_client fetch client_id store
    | false ↦ (err unknown_client, store)
  ]
]
