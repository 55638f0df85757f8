-- ===== src/IpAllocator/Simple/Loop.antt =====
-- The `for` of simpleIPAllocator.Allocate (ipallocator.go): it ends, and what it has done then.
use wgipam.Base.{
  ℕ, suc, ◌<◌, ◌≡◌, refl, Bool, true, false, Option, none, some, List, [], ◌∷◌, arith,
}
use wgipam.Base.Result.{Result, ok, panic}
use wgipam.Net.{IpNet, Mask, string}
use wgipam.Family.{ip_mask}
use wgipam.Store.{Store}
use wgipam.Store.Contract.{StoreView, Sets}
use wgipam.IpAllocator.{IpAddr}
use wgipam.IpAllocator.Cursor.{CursorLaws}
use wgipam.IpAllocator.Simple.{Simple, W, advance, wrap, attempt, loop}
use wgipam.IpAllocator.Simple.Allocate.{key}

module _ (pkg : IpAddr) {S : Type 0} (st : Store S) where
  -- One round of the loop, by what its three parts return
  module _ (fuel : ℕ) (out : Bool) (w w₁ : W pkg st.ip_store) where
    pub loop-panic :
        advance pkg st.ip_store w ≡ (panic, w₁)
        → loop pkg st.ip_store (suc fuel) out w ≡ (panic, w₁)
    unfolding loop
    loop-panic e = ground (arith, e)

    module _ (p n : Option _) (w₂ w₃ : W pkg st.ip_store)
        (e : advance pkg st.ip_store w ≡ (ok (p, n), w₁)) where
      pub loop-exhausted :
          wrap pkg st.ip_store out n w₁ ≡ (ok none, w₂)
          → loop pkg st.ip_store (suc fuel) out w ≡ (ok none, w₂)
      unfolding loop
      loop-exhausted e₁ = ground (arith, e, e₁)

      module _ (out' : Bool) (e₁ : wrap pkg st.ip_store out n w₁ ≡ (ok (some out'), w₂)) where
        pub loop-again :
            attempt pkg st.ip_store p w₂ ≡ (ok none, w₃)
            → loop pkg st.ip_store (suc fuel) out w ≡ loop pkg st.ip_store fuel out' w₃
        unfolding loop
        loop-again e₂ = ground (arith, e, e₁, e₂)

        pub loop-got :
            (ip : IpNet)
            → attempt pkg st.ip_store p w₂ ≡ (ok (some ip), w₃)
            → loop pkg st.ip_store (suc fuel) out w ≡ (ok (some (ip ∷ [])), w₃)
        unfolding loop
        loop-got ip e₂ = ground (arith, e, e₁, e₂)

        pub loop-nil :
            attempt pkg st.ip_store p w₂ ≡ (panic, w₃)
            → loop pkg st.ip_store (suc fuel) out w ≡ (panic, w₃)
        unfolding loop
        loop-nil e₂ = ground (arith, e, e₁, e₂)

  pub attempt-none : (w : W pkg st.ip_store) → attempt pkg st.ip_store none w ≡ (panic, w)
  unfolding attempt
  attempt-none w = refl

module _ (pkg : IpAddr) (laws : CursorLaws pkg) {S : Type 0} (st : Store S) (v : StoreView S) where
  -- How Allocate ends for a ready allocator `s` on the store state `σ`
  pub data Outcome (s : Simple pkg) (σ : S) (r : Result (Option (List IpNet)) × W pkg st.ip_store)
      : Type 0 where
    -- a nil position was read
    panicked :
        (c : pkg.Cursor)
        → laws.net c ≡ s.prefix
        → r ≡ (panic, (record s { cursor = c }, σ))
        → Outcome s σ r
    -- no address, and the store as it was
    exhausted :
        (c : pkg.Cursor)
        → laws.net c ≡ s.prefix
        → r ≡ (ok none, (record s { cursor = c }, σ))
        → Outcome s σ r
    -- an address of the prefix that was free and is allocated now
    got :
        (c : pkg.Cursor) (i : ℕ) (m : Mask) (σ' : S)
        → laws.net c ≡ s.prefix
        → i < pkg.num_nodes s.prefix
        → ip_mask s.prefix ≡ ok m
        → r ≡ (ok (some (key pkg laws s i m ∷ [])), (record s { cursor = c }, σ'))
        → v.allocated σ (string s.prefix) (string (key pkg laws s i m)) ≡ false
        → Sets v (string s.prefix) (string (key pkg laws s i m)) true σ σ'
        → Outcome s σ r
