-- ===== src/Repo/Again.antt =====
-- A node that was loaded is loaded again as it was.
use crosshub.Prelude.{
  ◌≡◌, ◌≢◌, refl, sym, ap, ◌∙◌, subst, true, false, Bool-cases, inl, inr, Bytes, String, str_eq,
  eq_iff, Option, none, some, ok, err, or_else, arith,
}
use crosshub.Prelude.Action.{and_then, and_then-ok, retag, retag-ok}
use crosshub.Swarm.Certs.{X509}
use crosshub.Repo.Addresses.{Multiaddrs}
use crosshub.Repo.Files.{
  FileSystem, KeyTools, not_pretty, load_private_key, key_name, Key, Repo, key_of, parts_of,
  key_written, store_key, load_priv_key, load_parts, load,
}

-- A file that is written is there, and the others are as they were.
pub record IsFileSystem (fs : FileSystem) : Type 0 where
  pub exist-write :
      (n : String) (b : Bytes) (d : fs.Disk) {d' : fs.Disk}
      → fs.write_file n b d ≡ some d'
      → fs.exist n d' ≡ true
  pub read-write :
      (n k : String) (b : Bytes) (d : fs.Disk) {d' : fs.Disk}
      → fs.write_file n b d ≡ some d'
      → k ≢ n
      → fs.read_file k d' ≡ fs.read_file k d

other : (k : String) → str_eq k key_name ≡ false → k ≢ key_name
other k e z = absurd (ground (arith, eq_iff k key_name))

module _ (x509 : X509) (tools : KeyTools) (m : Multiaddrs) (fs : FileSystem)
    (laws : IsFileSystem fs) where
  -- The file of the key is there, and the others are as they were.
  record Stored (d d' : fs.Disk) : Type 0 where
    there : fs.exist key_name d' ≡ true
    others : (k : String) → k ≢ key_name → fs.read_file k d' ≡ fs.read_file k d

  key_written-Stored :
      (text : Bytes) (d : fs.Disk) (o : Option fs.Disk) {d' : fs.Disk}
      → fs.write_file key_name text d ≡ o
      → key_written x509 tools m fs o d ≡ (d', ok tt)
      → Stored d d'
  unfolding key_written
  key_written-Stored text d none e h = absurd (cc)
  key_written-Stored text d (some d1) e h = subst (Stored d) (ap (λ r. r.0) h) (record {
    there = laws.exist-write key_name text d e;
    others = λ k ne. laws.read-write key_name k text d e ne;
  })

  store_key-Stored :
      (priv : tools.Private) (d : fs.Disk) {d' : fs.Disk}
      → store_key x509 tools m fs priv d ≡ (d', ok tt)
      → Stored d d'
  unfolding store_key
  store_key-Stored priv d {d'} h = elim (Bool-cases (fs.exist key_name d)) [
    | inl old ↦
        let here : (d, ok tt) ≡ (d', ok tt) = rw (old, store_key) at h in
        subst (Stored d) (ap (λ r. r.0) here) (record { there = old; others = λ k ne. refl })
    | inr new ↦
        let here : and_then (d, or_else (tools.pretty priv) (err not_pretty))
              (λ text d1. key_written x509 tools m fs (fs.write_file key_name text d1) d1)
            ≡ (d', ok tt) =
          rw (new, store_key) at h in
        and_then-ok (d, or_else (tools.pretty priv) (err not_pretty)) _ here
          λ d1 text e1 h1.
            subst (λ s. Stored s d') (sym (ap (λ r. r.0) e1))
              (key_written-Stored text d1 (fs.write_file key_name text d1) refl h1)
  ]

  -- What loadPrivKey has done where it returns a key.
  record Keyed (d d' : fs.Disk) (key : Key x509 tools m) : Type 0 where
    made : key_of x509 tools m (fs.read_file "certs/node.priv" d) ≡ ok key
    stored : Stored d d'

  load_priv_key-Keyed :
      (d : fs.Disk) {d' : fs.Disk} {key : Key x509 tools m}
      → load_priv_key x509 tools m fs d ≡ (d', ok key)
      → Keyed d d' key
  unfolding load_priv_key
  load_priv_key-Keyed d {d'} {key} h =
      and_then-ok (d, key_of x509 tools m (fs.read_file "certs/node.priv" d)) _ h
        λ d1 k e1 h1. and_then-ok (store_key x509 tools m fs k.priv_key d1) _ h1 λ d2 u e2 h2.
          record {
            made = ap (λ r. r.1) e1 ∙ ap (λ r. r.1) h2;
            stored =
                subst (λ s. Stored s d') (sym (ap (λ r. r.0) e1))
                  (subst (Stored d1) (ap (λ r. r.0) h2) (store_key-Stored k.priv_key d1 e2));
          }

  load_priv_key-again :
      (d : fs.Disk) {key : Key x509 tools m}
      → key_of x509 tools m (fs.read_file "certs/node.priv" d) ≡ ok key
      → fs.exist key_name d ≡ true
      → load_priv_key x509 tools m fs d ≡ (d, ok key)
  unfolding load_priv_key store_key
  load_priv_key-again d e there = rw (e, load_priv_key) (rw (there, store_key) refl)

  load_parts-same :
      (d d' : fs.Disk)
      → ((k : String) → k ≢ key_name → fs.read_file k d' ≡ fs.read_file k d)
      → load_parts x509 tools m fs d' ≡ load_parts x509 tools m fs d
  unfolding load_parts
  load_parts-same d d' same =
      let f1 = same "crosshub.toml" (other "crosshub.toml" refl) in
      let f2 = same "network.toml" (other "network.toml" refl) in
      let f3 = same "certs/node.priv" (other "certs/node.priv" refl) in
      let f4 = same "certs/node.cert" (other "certs/node.cert" refl) in
      let f5 = same "certs/agency.cert" (other "certs/agency.cert" refl) in
      let f6 = same "certs/ca.cert" (other "certs/ca.cert" refl) in
      λ i. parts_of x509 tools m (f1 i) (f2 i) (f3 i) (f4 i) (f5 i) (f6 i)

  -- Where Load returns a node, it returns the same again from the files that it left, and leaves them as they
  -- are; and of the files of the first time it has written none but that of the key.
  pub load-again :
      (d : fs.Disk) {d' : fs.Disk} {node : Repo x509 tools m}
      → load x509 tools m fs d ≡ (d', ok node)
      → (load x509 tools m fs d' ≡ (d', ok node))
        × ((k : String) → k ≢ key_name → fs.read_file k d' ≡ fs.read_file k d)
  unfolding load
  load-again d {d'} {node} h =
      and_then-ok (d, load_parts x509 tools m fs d) _ h
        λ d1 parts e1 h1.
          and_then-ok (retag load_private_key (load_priv_key x509 tools m fs d1)) _ h1
            λ d2 key e2 h2.
              let keyed : Keyed d1 d2 key =
                load_priv_key-Keyed d1
                  (retag-ok load_private_key (load_priv_key x509 tools m fs d1) e2) in
              let k : Keyed d d' key =
                subst (λ s. Keyed s d' key) (sym (ap (λ r. r.0) e1))
                  (subst (λ s. Keyed d1 s key) (ap (λ r. r.0) h2) keyed) in
              let parts_again : load_parts x509 tools m fs d' ≡ ok parts =
                load_parts-same d d' k.stored.others ∙ ap (λ r. r.1) e1 in
              let key_again : load_priv_key x509 tools m fs d' ≡ (d', ok key) =
                load_priv_key-again d'
                  (ap (key_of x509 tools m)
                      (k.stored.others "certs/node.priv" (other "certs/node.priv" refl))
                    ∙ k.made)
                  k.stored.there in
              (
                rw (parts_again, load) (rw key_again (ap (λ q. (d', q)) (ap (λ r. r.1) h2))),
                k.stored.others,
              )
