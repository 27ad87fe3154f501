-- ===== src/Net/Connected.antt =====
-- The connections that `Net::connect_all` of tps-bench/src/net.rs makes.
use Prim.Native.String.{String}
use ckb_bench_archived.Base.{
  List, [], ◌∷◌, ◌++◌, map, Option, Outcome, ok, panic, ◌≡◌, refl, ap, ◌∙◌, ◌⊎◌, inl, inr, All,
}
use ckb_bench_archived.Rpc
use ckb_bench_archived.Rpc.{Jsonrpc, Handle, Connection, standalone_failed, refused, accepted}
use ckb_bench_archived.Net.{Net, connect_each, connect_all}

Connection-cases :
    (connection : Connection)
    → (connection ≡ accepted) ⊎ ((connection ≡ refused) ⊎ (connection ≡ standalone_failed))
Connection-cases accepted = inl refl
Connection-cases refused = inr (inl refl)
Connection-cases standalone_failed = inr (inr refl)

-- The first URI without a connection, and the panic for it.
pub record IsStopped (handle : Handle) (uris : List String) {A : Type 0} (outcome : Outcome A)
    : Type 0 where
  pub before : List String
  pub uri : String
  pub after : List String
  pub split : before ++ uri ∷ after ≡ uris
  pub connected : All (λ u. handle u ≡ accepted) before
  pub stops :
      ((handle uri ≡ standalone_failed) × (outcome ≡ panic "standalone"))
      ⊎ ((handle uri ≡ refused) × (outcome ≡ panic "Jsonrpc::connect"))

module _ (handle : Handle) (user pass : Option String) where
  pub connect-uri :
      (uri : String)
      → handle uri ≡ accepted
      → (rpc : Jsonrpc) × (Rpc.connect handle user pass uri ≡ ok rpc) × (rpc.uri ≡ uri)
  unfolding Rpc.connect
  connect-uri uri fits = rw fits (_, refl, refl)

  connect_refused :
      (uri : String)
      → handle uri ≡ refused
      → Rpc.connect handle user pass uri ≡ panic "Jsonrpc::connect"
  unfolding Rpc.connect
  connect_refused uri bad = rw bad refl

  connect_standalone :
      (uri : String)
      → handle uri ≡ standalone_failed
      → Rpc.connect handle user pass uri ≡ panic "standalone"
  unfolding Rpc.connect
  connect_standalone uri bad = rw bad refl

  -- The first URI has no connection.
  IsStopped-here :
      (uri : String) (uris : List String)
      → ((handle uri ≡ standalone_failed)
          × (connect_each handle user pass (uri ∷ uris) ≡ panic "standalone"))
        ⊎ ((handle uri ≡ refused)
            × (connect_each handle user pass (uri ∷ uris) ≡ panic "Jsonrpc::connect"))
      → IsStopped handle (uri ∷ uris) (connect_each handle user pass (uri ∷ uris))
  IsStopped-here uri uris stops = record {
    before = [];
    uri = uri;
    after = uris;
    split = refl;
    connected = tt;
    stops = stops;
  }

  -- A later one has none.
  IsStopped-later :
      (uri : String) (uris : List String) (rpc : Jsonrpc)
      → handle uri ≡ accepted
      → Rpc.connect handle user pass uri ≡ ok rpc
      → IsStopped handle uris (connect_each handle user pass uris)
      → IsStopped handle (uri ∷ uris) (connect_each handle user pass (uri ∷ uris))
  unfolding connect_each
  IsStopped-later uri uris rpc fits connected s = record {
    before = uri ∷ s.before;
    uri = s.uri;
    after = s.after;
    split = ap (◌∷◌ uri) s.split;
    connected = (fits, s.connected);
    stops = elim s.stops [
      | inl (bad, panics) ↦ inl (bad, rw (connected, panics) refl)
      | inr (bad, panics) ↦ inr (bad, rw (connected, panics) refl)
    ];
  }

  connect_each-cases :
      (uris : List String)
      → ((rpcs : List Jsonrpc) × (connect_each handle user pass uris ≡ ok rpcs)
          × All (λ uri. handle uri ≡ accepted) uris
          × (map (λ r. r.uri) rpcs ≡ uris))
        ⊎ IsStopped handle uris (connect_each handle user pass uris)
  unfolding connect_each
  connect_each-cases [] = inl ([], refl, tt, refl)
  connect_each-cases (uri ∷ uris) = elim (Connection-cases (handle uri)) [
    | inr (inl bad) ↦ inr (IsStopped-here uri uris (inr (bad, rw (connect_refused uri bad) refl)))
    | inr (inr bad) ↦
        inr (IsStopped-here uri uris (inl (bad, rw (connect_standalone uri bad) refl)))
    | inl fits ↦
        let (rpc, connected, named) = connect-uri uri fits in
        elim (connect_each-cases uris) [
          | inl (rpcs, made, fit, names) ↦ inl (
            rpc ∷ rpcs,
            rw (connected, made) refl,
            (fits, fit),
            ap (◌∷◌ rpc.uri) names ∙ ap (λ u. u ∷ uris) named,
          )
          | inr s ↦ inr (IsStopped-later uri uris rpc fits connected s)
        ]
  ]

  -- Either all URIs are accepted, and the net has one connection for each, in order; or there is a
  -- first URI for which the transport cannot be made or which it refuses, and `connect_all` panics
  -- as `connect` does for it.
  pub connect_all-cases :
      (uris : List String)
      → ((net : Net) × (connect_all handle user pass uris ≡ ok net)
          × All (λ uri. handle uri ≡ accepted) uris
          × (map (λ (r : Jsonrpc). r.uri) net.endpoints ≡ uris))
        ⊎ IsStopped handle uris (connect_all handle user pass uris)
  unfolding connect_all
  connect_all-cases uris = elim (connect_each-cases uris) [
    | inl (rpcs, made, fit, names) ↦ inl (record { endpoints = rpcs }, rw made refl, fit, names)
    | inr s ↦ inr (record {
      before = s.before;
      uri = s.uri;
      after = s.after;
      split = s.split;
      connected = s.connected;
      stops = elim s.stops [
        | inl (bad, panics) ↦ inl (bad, rw panics refl)
        | inr (bad, panics) ↦ inr (bad, rw panics refl)
      ];
    })
  ]

  connect_each-uris :
      (uris : List String)
      → ((uri : String) → handle uri ≡ accepted)
      → (rpcs : List Jsonrpc) × (connect_each handle user pass uris ≡ ok rpcs)
        × (map (λ r. r.uri) rpcs ≡ uris)
  unfolding connect_each
  connect_each-uris [] fits = ([], refl, refl)
  connect_each-uris (uri ∷ uris) fits =
      let (rpc, connected, named) = connect-uri uri (fits uri) in
      let (rpcs, made, names) = connect_each-uris uris fits in
      (rpc ∷ rpcs, rw (connected, made) refl, ap (◌∷◌ rpc.uri) names ∙ ap (λ u. u ∷ uris) named)

  -- Where all URIs are accepted, the net has a connection for each.
  pub connect_all-uris :
      (uris : List String)
      → ((uri : String) → handle uri ≡ accepted)
      → (net : Net) × (connect_all handle user pass uris ≡ ok net)
        × (map (λ (r : Jsonrpc). r.uri) net.endpoints ≡ uris)
  unfolding connect_all
  connect_all-uris uris fits =
      let (rpcs, made, names) = connect_each-uris uris fits in
      (record { endpoints = rpcs }, rw made refl, names)
