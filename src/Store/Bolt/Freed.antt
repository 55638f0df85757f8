-- ===== src/Store/Bolt/Freed.antt =====
-- boltStore.Purge (store.go) on a database that keeps its laws: the addresses in each known subnet.
use wgipam.Base.{
  ◌≡◌, refl, true, false, ◌&&◌, none, some, List, [], ◌∷◌, any, All, arith, ◌==◌, Bool-cases, inl,
  inr, ◌∙◌, sym, ap,
}
use wgipam.Base.Map.{Map, lookup, beq_refl}
use wgipam.Net.{IpNet, IsNet, Cidr, cidr_eq, cidr_beq_iff, string, contains}
use wgipam.Net.Laws.{restored, string-restored, contains-of-string}
use wgipam.Store.Contract.{frees}
use wgipam.Store.Bolt.{text, Bbolt}
use wgipam.Store.Bolt.Buckets.{key_eq, bucket_eq, BboltLaws}
use wgipam.Store.Bolt.Cleared.{hits_any, is_saved}
use wgipam.Store.Bolt.Saved.{IsOpen}

-- A known subnet is one that was saved.
pub known-is_saved :
    (c : Cidr) (subs : Map Cidr IpNet)
    → elim (lookup c subs) [ none ↦ false | some n ↦ string n == c ] ≡ true
    → is_saved c subs ≡ true
known-is_saved c [] h = absurd (cc h)
known-is_saved c ((k, n) ∷ subs) h = elim (Bool-cases (k == c)) [
  | inl same ↦ ground (arith, same, h)
  | inr other ↦ ground (arith, known-is_saved c subs (ground (arith, h, other)))
]

module _ (db : Bbolt) (laws : BboltLaws db) where
  open db use {Db}

  -- Addresses of one subnet that are freed by the text of the subnet alone
  hits-frees :
      (n : IpNet) (c : Cidr) (freed : List IpNet)
      → IsNet n
      → any (λ f. contains n f.ip && text (string f) == text c) freed
        ≡ frees (restored (string n)) c freed
  hits-frees n c [] valid = refl
  hits-frees n c (f ∷ freed) valid =
      rw
        (
          hits-frees n c freed valid,
          contains-of-string n (restored (string n)) f.ip (sym (string-restored (string n) valid)),
        )
        refl

  -- An address that no lease frees is in no bucket that is cleared of it.
  pub hits_any-frees :
      (sub c : Cidr) (freed : List IpNet) (d : Db) (subs : Map Cidr IpNet)
      → All (IsOpen db laws d) subs
      → frees (restored sub) c freed ≡ false
      → hits_any db laws subs freed (text sub) (text c) ≡ false
  hits_any-frees sub c freed d [] o h = refl
  hits_any-frees sub c freed d ((k, n) ∷ subs) ((valid, x), rest) h =
      elim (Bool-cases (string n == sub)) [
        | inr other ↦ ground (arith, other, hits_any-frees sub c freed d subs rest h)
        | inl same ↦ ground (
          arith,
          hits_any-frees sub c freed d subs rest h,
          hits-frees n c freed valid,
          h,
          (cidr_beq_iff (string n) sub).0 same,
        )
      ]

  -- An address that is freed in a known subnet is cleared from its bucket.
  pub hits_any-known :
      (sub c : Cidr) (n : IpNet) (freed : List IpNet) (d : Db) (subs : Map Cidr IpNet)
      → All (IsOpen db laws d) subs
      → lookup sub subs ≡ some n
      → string n ≡ sub
      → frees (restored sub) c freed ≡ true
      → hits_any db laws subs freed (text sub) (text c) ≡ true
  hits_any-known sub c n freed d [] o e same h = absurd (cc e)
  hits_any-known sub c n freed d ((k, m) ∷ subs) ((valid, x), rest) e same h =
      elim (Bool-cases (k == sub)) [
        | inr other ↦
            ground
              (arith, hits_any-known sub c n freed d subs rest (ground (arith, e, other)) same h)
        | inl here ↦
            let is_n : m ≡ n = ground (arith, e, here) in
            let of_m : string m ≡ sub = ap string is_n ∙ same in
            let held : any (λ f. contains m f.ip && text (string f) == text c) freed ≡ true =
              hits-frees m c freed valid ∙ ap (λ (z : Cidr). frees (restored z) c freed) of_m ∙ h in
            ground (arith, held, of_m, beq_refl (text sub))
      ]
