-- ===== src/Identity/Server/Refines/Reads.antt =====
-- identity/store/server.py: each method that reads, on both stores.
use mathlib.Core.List.{Perm}
use islands_kernel.Base.{
  String, ◌≡◌, refl, ◌∙◌, ap, Option, none, some, List, [], ◌∷◌, arith, string_eq, option_eq,
  pair_eq, ◌==◌, Option-cases, inl, inr, Eq,
}
use islands_kernel.Base.Dict.{Dict, lookup, filter, values, IsKeyed}
use islands_kernel.Base.Sql.{SameElements, FoundAlike, Engine, IsLawful, Json, IsFaithful}
use islands_kernel.Base.Sql.Held.{Holds, Holds-found, rows-Holds, all_rows-Holds, In-map}
use islands_kernel.Base.Sql.Queries.{map_id, find_same, find-FoundAlike, filter-perm, keys-IsKeyed}
use islands_kernel.Identity.Model.{
  Principal, Membership, Grant, OauthAccessToken, AccessLog, IslandRegistry, IslandPrincipalLink,
}
use islands_kernel.Identity.Store
use islands_kernel.Identity.Store.{IdentityStore, memberships_of}
use islands_kernel.Identity.Store.Invariant.{IsValid}
use islands_kernel.Identity.Server
use islands_kernel.Identity.Server.{ServerIdentityStore, sql_equal}
use islands_kernel.Identity.Server.Rows.{
  MembershipRow, membership_of, GrantRow, grant_of, AccessTokenRow, access_token_of,
}
use islands_kernel.Identity.Server.Refines.Tables.{Implements}

-- A principal of each store under the same email, or none in either.
abbrev pub SameEmail : String → IdentityStore → Option Principal → Option Principal → Type 0
SameEmail email m = FoundAlike (λ (p : Principal). p.email == some email) (values m.principals)

module _ (db : Engine) (law : IsLawful db) (json : Json) (faithful : IsFaithful json) where
  -- Every read of the server gives what the memory's read gives; of a list the same elements; of a
  -- search that is not by a key, a row that passes the same test; of the log, the same entries.
  pub record Agrees (s : ServerIdentityStore db json) (m : IdentityStore) : Type 0 where
    pub principal :
        (principal_id : String)
        → Server.get_principal db json principal_id s ≡ Store.get_principal principal_id m
    pub by_email :
        (email : String)
        → SameEmail email m
            (Server.get_principal_by_email db json (some email) s)
            (Store.get_principal_by_email (some email) m)
    pub org : (org_id : String) → Server.get_org db json org_id s ≡ Store.get_org org_id m
    pub membership :
        (principal_id org_id : String)
        → Server.get_membership db json principal_id org_id s
          ≡ Store.get_membership principal_id org_id m
    pub memberships :
        (principal_id : String)
        → SameElements
            (Server.list_memberships db json principal_id s)
            (Store.list_memberships principal_id m)
    pub grants :
        (principal_id : String)
        → SameElements
            (Server.list_grants db json principal_id s)
            (Store.list_grants principal_id m)
    pub mcp_token :
        (token_hash : String)
        → Server.get_mcp_token db json token_hash s ≡ Store.get_mcp_token token_hash m
    pub oauth_client :
        (client_id : String)
        → Server.get_oauth_client db json client_id s ≡ Store.get_oauth_client client_id m
    pub auth_code :
        (code_hash : String)
        → Server.get_auth_code db json code_hash s ≡ Store.get_auth_code code_hash m
    pub access_token :
        (token_hash : String)
        → Server.get_access_token db json token_hash s ≡ Store.get_access_token token_hash m
    pub access_token_hashes :
        SameElements (Server.access_token_hashes db json s) (Store.access_token_hashes m)
    pub log :
        (principal_id : String)
        → Perm (Server.read_log db json principal_id s) (Store.read_log principal_id m)
    pub island :
        (island_id : String) → Server.get_island db json island_id s ≡ Store.get_island island_id m
    pub by_audience :
        (audience : String)
        → FoundAlike
            (λ (i : IslandRegistry). i.audience == audience)
            (values m.islands)
            (Server.get_island_by_audience db json audience s)
            (Store.get_island_by_audience audience m)
    pub islands : SameElements (Server.list_islands db json s) (Store.list_islands m)
    pub by_island :
        (island_id island_user_id : String)
        → Server.get_principal_by_island db json island_id island_user_id s
          ≡ Store.get_principal_by_island island_id island_user_id m
    pub link :
        (principal_id : String)
        → FoundAlike
            (λ (l : IslandPrincipalLink). l.principal_id == principal_id)
            (values m.island_links)
            (Server.get_island_link_by_principal db json principal_id s)
            (Store.get_island_link_by_principal principal_id m)
    pub federation_txn :
        (txn_hash : String)
        → Server.get_federation_txn db json txn_hash s ≡ Store.get_federation_txn txn_hash m

  -- The rows of a table that are their own values.
  rows_alike :
      {K V : Type 0} ⦃e : Eq K⦄ (name : V → K) (t : db.Table K V) (d : Dict K V)
      → IsKeyed name d
      → Holds db law (λ (v : V). v) t d
      → SameElements (db.rows t) (values d)
  rows_alike name t d u h a =
      rw (map_id (db.rows t)) at (all_rows-Holds db law (λ v. v) name t d a u h)

  -- A membership's key names its principal.
  memberships_of-filter :
      (principal_id : String) (d : Dict (String × String) Membership)
      → IsKeyed (λ (m : Membership). (m.principal_id, m.org_id)) d
      → memberships_of principal_id d
        ≡ filter (λ (m : Membership). m.principal_id == principal_id) (values d)
  unfolding memberships_of values filter
  memberships_of-filter principal_id [] u = refl
  memberships_of-filter principal_id (((pid, org), m) ∷ d) (own, fresh, u) =
      ground (arith, memberships_of-filter principal_id d u)

  sql_equal-some : (a : Option String) (b : String) → sql_equal a (some b) ≡ (a == some b)
  unfolding sql_equal option_eq
  sql_equal-some none b = ground arith
  sql_equal-some (some a) b = ground arith

  module _ (s : ServerIdentityStore db json) (m : IdentityStore)
      (h : Implements db law json faithful s m) (v : IsValid m) where
    by_email-alike :
        (email : String)
        → SameEmail email m
            (Server.get_principal_by_email db json (some email) s)
            (Store.get_principal_by_email (some email) m)
    unfolding Server.get_principal_by_email Store.get_principal_by_email
    by_email-alike email =
        rw
          (find_same (λ (p : Principal). sql_equal p.email (some email))
            (λ (p : Principal). p.email == some email) (db.rows s.principals)
            (λ p. sql_equal-some p.email email))
          (find-FoundAlike (λ (p : Principal). p.email == some email) (db.rows s.principals)
            (values m.principals)
            (rows_alike (λ (p : Principal). p.id) s.principals m.principals v.principals
              h.principals))

    memberships-alike :
        (principal_id : String)
        → SameElements
            (Server.list_memberships db json principal_id s)
            (Store.list_memberships principal_id m)
    unfolding Server.list_memberships Store.list_memberships membership_of
    memberships-alike principal_id a =
        rw (memberships_of-filter principal_id m.memberships v.memberships) (
          rows-Holds db law (membership_of json)
            (λ (row : MembershipRow json). row.principal_id == principal_id)
            (λ (x : Membership). x.principal_id == principal_id) (λ r. refl)
            (λ (x : Membership). (x.principal_id, x.org_id)) s.memberships m.memberships a
            v.memberships h.memberships)

    grants-alike :
        (principal_id : String)
        → SameElements
            (Server.list_grants db json principal_id s)
            (Store.list_grants principal_id m)
    unfolding Server.list_grants Store.list_grants grant_of
    grants-alike principal_id a =
        rows-Holds db law (grant_of json)
          (λ (row : GrantRow json). row.principal_id == principal_id)
          (λ (x : Grant). x.principal_id == principal_id) (λ r. refl) (λ (x : Grant). x.id) s.grants
          m.grants a v.grants h.grants

    hashes-alike : SameElements (Server.access_token_hashes db json s) (Store.access_token_hashes m)
    unfolding Server.access_token_hashes Store.access_token_hashes access_token_of
    hashes-alike k =
        let rows : List (AccessTokenRow json) = db.rows s.access_tokens in
        let ours = In-map (λ (row : AccessTokenRow json). row.hash) k rows in
        let theirs = In-map (λ (t : OauthAccessToken). t.hash) k (values m.at) in
        let whole = λ (a : OauthAccessToken).
          all_rows-Holds db law (access_token_of json) (λ (t : OauthAccessToken). t.hash)
            s.access_tokens m.at a v.at h.at in
        rw (← keys-IsKeyed (λ (t : OauthAccessToken). t.hash) m.at v.at) (
          λ i.
              let (row, same, there) = ours.0 i in
              theirs.1 (
                access_token_of json row,
                same,
                (whole (access_token_of json row)).0 (
                    (In-map (access_token_of json) (access_token_of json row) rows).1
                      (row, refl, there)),
              ),
          λ i.
              let (t, same, there) = theirs.0 i in
              let (row, decoded, found) =
                (In-map (access_token_of json) t rows).0 ((whole t).1 there) in
              ours.1 (row, ap (λ (a : OauthAccessToken). a.hash) decoded ∙ same, found),
        )

    by_island-agrees :
        (island_id island_user_id : String)
        → Server.get_principal_by_island db json island_id island_user_id s
          ≡ Store.get_principal_by_island island_id island_user_id m
    unfolding Server.get_principal_by_island Store.get_principal_by_island
    by_island-agrees island_id island_user_id =
        let found =
          Holds-found db law s.island_principal_links m.island_links h.island_links
            (island_id, island_user_id) in
        elim (Option-cases (lookup (island_id, island_user_id) m.island_links)) [
          | inl absent ↦ ground (arith, found, absent)
          | inr (l, there) ↦ ground (arith, found, there)
        ]

    pub Implements-Agrees : Agrees s m
    unfolding Server.get_principal Store.get_principal Server.get_org Store.get_org
        Server.get_membership Store.get_membership Server.get_mcp_token Store.get_mcp_token
        Server.get_oauth_client Store.get_oauth_client Server.get_auth_code Store.get_auth_code
        Server.get_access_token Store.get_access_token Server.read_log Store.read_log
        Server.get_island Store.get_island Server.list_islands Store.list_islands
        Server.get_island_by_audience Store.get_island_by_audience
        Server.get_island_link_by_principal Store.get_island_link_by_principal
        Server.get_federation_txn Store.get_federation_txn
    Implements-Agrees = record {
      principal = Holds-found db law s.principals m.principals h.principals;
      by_email = by_email-alike;
      org = Holds-found db law s.orgs m.orgs h.orgs;
      membership = λ principal_id org_id. h.memberships (principal_id, org_id);
      memberships = memberships-alike;
      grants = grants-alike;
      mcp_token = Holds-found db law s.mcp_tokens m.mcp h.mcp;
      oauth_client = h.clients;
      auth_code = Holds-found db law s.auth_codes m.codes h.codes;
      access_token = h.at;
      access_token_hashes = hashes-alike;
      log = λ principal_id.
          filter-perm (λ (e : AccessLog). e.principal_id == principal_id) (db.all_rows s.logs)
            m.logs h.logs;
      island = Holds-found db law s.islands m.islands h.islands;
      by_audience = λ audience.
          find-FoundAlike (λ (i : IslandRegistry). i.audience == audience) (db.rows s.islands)
            (values m.islands)
            (rows_alike (λ (i : IslandRegistry). i.id) s.islands m.islands v.islands h.islands);
      islands = rows_alike (λ (i : IslandRegistry). i.id) s.islands m.islands v.islands h.islands;
      by_island = by_island-agrees;
      link = λ principal_id.
          find-FoundAlike (λ (l : IslandPrincipalLink). l.principal_id == principal_id)
            (db.rows s.island_principal_links) (values m.island_links)
            (rows_alike (λ (l : IslandPrincipalLink). (l.island_id, l.island_user_id))
              s.island_principal_links m.island_links v.island_links h.island_links);
      federation_txn = Holds-found db law s.federation_txns m.ftxn h.ftxn;
    }
