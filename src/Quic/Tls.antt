-- ===== src/Quic/Tls.antt =====
-- Whom the two sides of a QUIC connection trust (build_tls_config in
-- crates/ombrac-transport/src/quic/client.rs and server.rs).
use ombrac.Prelude.{
  Bool, true, false, Option, none, some, List, ◌≡◌, refl, sym, ◌∙◌, ap, ◌⊎◌, inl, inr, ok, err,
  bind-ok, Bool-cases,
}
use ombrac.Net.{Bytes, IoResult}
use ombrac.Quic.{
  Loader, io_question, load_certificates, load_pair, checked_pair, Roots, webpki_roots, roots_of,
  ClientConfig, ClientTls, ServerConfig, ServerTls, client_roots, client_auth, client_tls_config,
  server_certificate, checked_roots, client_verifier, server_tls_config,
}

io_question-ok : {A : Type 0} (m : IoResult A) (a : A) → io_question m ≡ ok a → m ≡ ok a
io_question-ok (ok b) a q = cc (q)
io_question-ok (err e) a q = absurd (cc (q))

module _ (l : Loader) where
  checked_pair-ok : (pair made : List Bytes × Bytes) → checked_pair l pair ≡ ok made → pair ≡ made
  checked_pair-ok (certs, key) made q = elim (Bool-cases (l.accepts_pair certs key)) [
    | inl b ↦ cc (rw (b) at q)
    | inr b ↦ absurd (cc (rw (b) at q))
  ]

  checked_roots-ok :
      (certs : List Bytes) (v : Option (List Bytes)) → checked_roots l certs ≡ ok v → v ≡ some certs
  checked_roots-ok certs v q = elim (Bool-cases (l.accepts_roots certs)) [
    | inl b ↦ cc (rw (b) at q)
    | inr b ↦ absurd (cc (rw (b) at q))
  ]

  -- The clients' certificates are checked against the file of the path, exactly when there is one.
  abbrev pub Demands : Option Bytes → Option (List Bytes) → Type 0
  Demands path verifier =
      ((path ≡ none) × (verifier ≡ none))
      ⊎ ((p : Bytes) × (certs : List Bytes) × (path ≡ some p)
          × (load_certificates l p ≡ ok certs)
          × (verifier ≡ some certs))

  client_verifier-Demands :
      (path : Option Bytes) (v : Option (List Bytes))
      → client_verifier l path ≡ ok v
      → Demands path v
  unfolding client_verifier
  client_verifier-Demands none v q = inl (refl, cc (q))
  client_verifier-Demands (some p) v q =
      let (certs, loaded, made) =
        bind-ok (io_question (load_certificates l p)) (checked_roots l) v q in
      inr (p, certs, refl, io_question-ok _ certs loaded, checked_roots-ok certs v made)

  server_certificate-ok :
      (self_signed : Bool) (paths : Option (Bytes × Bytes)) (pair : List Bytes × Bytes)
      → server_certificate l self_signed paths ≡ ok pair
      → (self_signed ≡ true)
        ⊎ ((ps : Bytes × Bytes) × (paths ≡ some ps) × (load_pair l ps ≡ ok pair))
  unfolding server_certificate
  server_certificate-ok true paths pair q = inl refl
  server_certificate-ok false none pair q = absurd (cc (q))
  server_certificate-ok false (some ps) pair q = inr (ps, refl, q)

  -- A server that gets a configuration has a certificate that it generated or the one of its two
  -- files, and it demands a certificate of its clients, from the roots of the file, exactly when a
  -- path of roots is set.
  pub server_tls_config-Demands :
      (c : ServerConfig) (tls : ServerTls)
      → server_tls_config l c ≡ ok tls
      → ((c.enable_self_signed ≡ true)
          ⊎ ((ps : Bytes × Bytes) × (c.tls_cert_key_paths ≡ some ps)
              × (load_pair l ps ≡ ok tls.certificate)))
        × Demands c.root_ca_path tls.client_verifier
  unfolding server_tls_config
  server_tls_config-Demands c tls q =
      let (pair, made, q1) = bind-ok (server_certificate l _ c.tls_cert_key_paths) _ tls q in
      let (verifier, demanded, q2) = bind-ok (client_verifier l c.root_ca_path) _ tls q1 in
      let (certificate, checked, q3) = bind-ok (checked_pair l pair) _ tls q2 in
      let made_tls : ServerTls = record {
        client_verifier = verifier;
        certificate = certificate;
        alpn_protocols = c.alpn_protocols;
        early_data = c.enable_zero_rtt;
      } in
      let is_tls : made_tls ≡ tls = cc (q3) in
      let same : pair ≡ tls.certificate =
        checked_pair-ok pair certificate checked ∙ ap (λ t. t.certificate) is_tls in
      let held : verifier ≡ tls.client_verifier = ap (λ t. t.client_verifier) is_tls in
      (
        rw⁻¹ (same) (server_certificate-ok c.enable_self_signed c.tls_cert_key_paths pair made),
        rw⁻¹ (held) (client_verifier-Demands c.root_ca_path verifier demanded),
      )

  -- The roots that the client checks against: those of the file when there is a path, and the public
  -- ones otherwise.
  abbrev pub Trusts : Option Bytes → Roots → Type 0
  Trusts path roots =
      ((path ≡ none) × (roots ≡ webpki_roots))
      ⊎ ((p : Bytes) × (certs : List Bytes) × (path ≡ some p)
          × (load_certificates l p ≡ ok certs)
          × (roots ≡ roots_of certs))

  client_roots-Trusts :
      (path : Option Bytes) (roots : Roots) → client_roots l path ≡ ok roots → Trusts path roots
  unfolding client_roots
  client_roots-Trusts none roots q = inl (refl, cc (q))
  client_roots-Trusts (some p) roots q =
      let (certs, loaded, made) = bind-ok (io_question (load_certificates l p)) _ roots q in
      inr (p, certs, refl, io_question-ok _ certs loaded, cc (made))

  -- A client that gets a configuration leaves the server's certificate unchecked only when it is told
  -- so, and otherwise checks it against the public roots or those of its file.
  pub client_tls_config-Trusts :
      (c : ClientConfig) (tls : ClientTls)
      → client_tls_config l c ≡ ok tls
      → (tls.null_verifier ≡ c.skip_server_verification) × Trusts c.root_ca_path tls.roots
  unfolding client_tls_config
  client_tls_config-Trusts c tls q =
      let (roots, trusted, q1) = bind-ok (client_roots l c.root_ca_path) _ tls q in
      let (auth, given, q2) = bind-ok (client_auth l c.client_cert_key_paths) _ tls q1 in
      let made_tls : ClientTls = record {
        roots = roots;
        client_auth = auth;
        alpn_protocols = c.alpn_protocols;
        null_verifier = c.skip_server_verification;
        enable_early_data = c.enable_zero_rtt;
      } in
      let is_tls : made_tls ≡ tls = cc (q2) in
      let held : roots ≡ tls.roots = ap (λ t. t.roots) is_tls in
      (
        sym (ap (λ t. t.null_verifier) is_tls),
        rw⁻¹ (held) (client_roots-Trusts c.root_ca_path roots trusted),
      )
