-- ===== src/Pki/Laws.antt =====
-- The secrets that carry certificates: what a successful call leaves, and that it is stable.
use hypershift_lite.Prelude.{
  String, ◌==◌, none, ap, ◌≡◌, ◌∙◌, Bool, true, false, List, some, eq_refl,
}
use hypershift_lite.Prelude.Dict.{entries, lookup-insert}
use hypershift_lite.Api.{Secret, SecretType}
use hypershift_lite.Certs.{Crypto}
use hypershift_lite.Pki.{has_keys, valid_ca, secret_up_to_date, compute_ca_hash, annotate_with_ca}
use hypershift_lite.Pki.{ca_hash_annotation, has_ca_hash, signed_secret_up_to_date}

-- A secret that is of a type, has the keys and carries the hash of a valid CA.
pub record IsSigned (c : Crypto) (ca : Secret) (type : SecretType) (keys : List String) (s : Secret)
    : Type 0 where
  pub ca_is_valid : valid_ca ca ≡ true
  pub typed : s.type ≡ type
  pub current : signed_secret_up_to_date c s ca keys ≡ true

module _ (c : Crypto) where
  has_ca_hash-annotate : (s ca : Secret) → has_ca_hash c (annotate_with_ca c s ca) ca ≡ true
  unfolding has_ca_hash annotate_with_ca
  has_ca_hash-annotate s ca =
      let hash = compute_ca_hash c ca in
      let found =
        lookup-insert ca_hash_annotation ca_hash_annotation hash (entries s.metadata.annotations) in
      ap (λ o. elim o as (λ _. Bool) [ none ↦ false | some actual ↦ hash == actual ]) found
      ∙ eq_refl hash

  -- A secret with the keys, once annotated, is up to date.
  pub annotate-current :
      (s ca : Secret) (keys : List String)
      → has_keys s keys ≡ true
      → signed_secret_up_to_date c (annotate_with_ca c s ca) ca keys ≡ true
  unfolding signed_secret_up_to_date secret_up_to_date has_keys annotate_with_ca
  annotate-current s ca keys h = rw (h) (has_ca_hash-annotate s ca)
