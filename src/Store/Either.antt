-- ===== src/Store/Either.antt =====
-- A Store of one of two types, as an interface value holds: the calls go to the one that is there.
use wgipam.Base.{ℕ, ◌≡◌, Bool, true, false, Option, none, some, ◌⊎◌, inl, inr, ap, sym, ◌∙◌, List}
use wgipam.Base.Int.{ℤ}
use wgipam.Base.Result.{Result, ok, ok-injective, M}
use wgipam.Net.{IpNet, IsNet, Cidr, string, contains}
use wgipam.Net.Laws.{restored}
use wgipam.Lease.{Lease}
use wgipam.Store.{Store, PurgeStats}
use wgipam.Store.Contract.{
  StoreView, StoreLaws, Sets, Registers, Saves, Purges, freed_from, expired_in,
}

module _ {A B : Type 0} where
  abbrev pub lift_left : {R : Type 0} → Result R × A → Result R × (A ⊎ B)
  lift_left (r, a) = (r, inl a)

  abbrev pub lift_right : {R : Type 0} → Result R × B → Result R × (A ⊎ B)
  lift_right (r, b) = (r, inr b)

  abbrev pub dispatch : {R : Type 0} → M A R → M B R → M (A ⊎ B) R
  dispatch m n (inl a) = lift_left (m a)
  dispatch m n (inr b) = lift_right (n b)

  abbrev pub either_ops : Store A → Store B → Store (A ⊎ B)
  either_ops x y = record {
    lease_store = record {
      leases = dispatch x.leases y.leases;
      lease = λ key. dispatch (x.lease key) (y.lease key);
      save_lease = λ key l. dispatch (x.save_lease key l) (y.save_lease key l);
      delete_lease = λ key. dispatch (x.delete_lease key) (y.delete_lease key);
    };
    ip_store = record {
      subnets = dispatch x.subnets y.subnets;
      save_subnet = λ sub. dispatch (x.save_subnet sub) (y.save_subnet sub);
      allocated_ips = λ sub. dispatch (x.allocated_ips sub) (y.allocated_ips sub);
      allocate_ip = λ sub ip. dispatch (x.allocate_ip sub ip) (y.allocate_ip sub ip);
      free_ip = λ sub ip. dispatch (x.free_ip sub ip) (y.free_ip sub ip);
    };
    close = dispatch x.close y.close;
    purge = λ t. dispatch (x.purge t) (y.purge t);
  }

  -- The value is of the first type.
  abbrev pub left_view : StoreView A → StoreView (A ⊎ B)
  left_view v = record {
    Inv = λ s. elim s [ inl a ↦ v.Inv a | inr b ↦ ⊥ ];
    IsKey = v.IsKey;
    Storable = v.Storable;
    stored = v.stored;
    leased = λ s k. elim s [ inl a ↦ v.leased a k | inr b ↦ none ];
    registered = λ s k. elim s [ inl a ↦ v.registered a k | inr b ↦ false ];
    known = λ s k. elim s [ inl a ↦ v.known a k | inr b ↦ false ];
    allocated = λ s k c. elim s [ inl a ↦ v.allocated a k c | inr b ↦ false ];
  }

  module _ (v : StoreView A) (a a' : A) where
    left-Sets :
        (sub c : Cidr) (b : Bool)
        → Sets v sub c b a a'
        → Sets (left_view v) sub c b (inl a) (inl a')
    left-Sets sub c b h = record {
      inv = h.inv;
      same_leases = h.same_leases;
      same_subnets = h.same_subnets;
      same_known = h.same_known;
      sets = h.sets;
    }

    left-Registers :
        (sub : Cidr) → Registers v sub a a' → Registers (left_view v) sub (inl a) (inl a')
    left-Registers sub h = record {
      inv = h.inv;
      same_leases = h.same_leases;
      registers = h.registers;
      knows = h.knows;
      others = h.others;
      no_more = h.no_more;
    }

    left-Saves :
        (key : ℕ) (l : Option Lease)
        → Saves v key l a a'
        → Saves (left_view v) key l (inl a) (inl a')
    left-Saves key l h = record {
      inv = h.inv;
      saves = h.saves;
      same_subnets = h.same_subnets;
      same_known = h.same_known;
      same_allocations = h.same_allocations;
    }

    left-Purges : (t : ℤ) → Purges v t a a' → Purges (left_view v) t (inl a) (inl a')
    left-Purges t h = record {
      inv = h.inv;
      keeps_live = h.keeps_live;
      only_live = h.only_live;
      same_subnets = h.same_subnets;
      same_known = h.same_known;
      keeps = h.keeps;
      frees_expired = h.frees_expired;
    }

  module _ (x : Store A) (y : Store B) (v : StoreView A) (contract : StoreLaws x v) where
    left_lease :
        (key : ℕ) (s : A ⊎ B)
        → (left_view v).Inv s
        → v.IsKey key
        → (either_ops x y).lease key s ≡ (ok ((left_view v).leased s key), s)
    left_lease key (inl a) i k = ap lift_left (contract.lease_lem key a i k)
    left_lease key (inr b) i k = absurd i

    left_save_lease :
        (key : ℕ) (l : Lease) (s : A ⊎ B)
        → (left_view v).Inv s
        → v.IsKey key
        → v.Storable l
        → (s' : A ⊎ B) × ((either_ops x y).save_lease key l s ≡ (ok tt, s'))
          × Saves (left_view v) key (some (v.stored l)) s s'
    left_save_lease key l (inl a) i k h =
        let (a', e, w) = contract.save_lease_lem key l a i k h in
        (inl a', ap lift_left e, left-Saves v a a' key (some (v.stored l)) w)
    left_save_lease key l (inr b) i k h = absurd i

    left_delete_lease :
        (key : ℕ) (s : A ⊎ B)
        → (left_view v).Inv s
        → v.IsKey key
        → (s' : A ⊎ B) × ((either_ops x y).delete_lease key s ≡ (ok tt, s'))
          × Saves (left_view v) key none s s'
    left_delete_lease key (inl a) i k =
        let (a', e, w) = contract.delete_lease_lem key a i k in
        (inl a', ap lift_left e, left-Saves v a a' key none w)
    left_delete_lease key (inr b) i k = absurd i

    left_save_subnet :
        (sub : IpNet) (s : A ⊎ B)
        → (left_view v).Inv s
        → IsNet sub
        → (s' : A ⊎ B) × ((either_ops x y).save_subnet sub s ≡ (ok tt, s'))
          × Registers (left_view v) (string sub) s s'
    left_save_subnet sub (inl a) i h =
        let (a', e, w) = contract.save_subnet_lem sub a i h in
        (inl a', ap lift_left e, left-Registers v a a' (string sub) w)
    left_save_subnet sub (inr b) i h = absurd i

    left_allocate_free :
        (sub ip : IpNet) (s : A ⊎ B)
        → (left_view v).Inv s
        → IsNet sub
        → IsNet ip
        → (left_view v).registered s (string sub) ≡ true
        → contains sub ip.ip ≡ true
        → (left_view v).allocated s (string sub) (string ip) ≡ false
        → (s' : A ⊎ B) × ((either_ops x y).allocate_ip sub ip s ≡ (ok true, s'))
          × Sets (left_view v) (string sub) (string ip) true s s'
    left_allocate_free sub ip (inl a) i hs hi r c n =
        let (a', e, w) = contract.allocate_free sub ip a i hs hi r c n in
        (inl a', ap lift_left e, left-Sets v a a' (string sub) (string ip) true w)
    left_allocate_free sub ip (inr b) i hs hi r c n = absurd i

    left_allocate_taken :
        (sub ip : IpNet) (s : A ⊎ B)
        → (left_view v).Inv s
        → (left_view v).registered s (string sub) ≡ true
        → contains sub ip.ip ≡ true
        → (left_view v).allocated s (string sub) (string ip) ≡ true
        → (either_ops x y).allocate_ip sub ip s ≡ (ok false, s)
    left_allocate_taken sub ip (inl a) i r c n =
        ap lift_left (contract.allocate_taken sub ip a i r c n)
    left_allocate_taken sub ip (inr b) i r c n = absurd i

    left_free :
        (sub ip : IpNet) (s : A ⊎ B)
        → (left_view v).Inv s
        → (left_view v).registered s (string sub) ≡ true
        → contains sub ip.ip ≡ true
        → (s' : A ⊎ B) × ((either_ops x y).free_ip sub ip s ≡ (ok tt, s'))
          × Sets (left_view v) (string sub) (string ip) false s s'
    left_free sub ip (inl a) i r c =
        let (a', e, w) = contract.free_lem sub ip a i r c in
        (inl a', ap lift_left e, left-Sets v a a' (string sub) (string ip) false w)
    left_free sub ip (inr b) i r c = absurd i

    left_purge :
        (t : ℤ) (s : A ⊎ B)
        → (left_view v).Inv s
        → (ps : PurgeStats) × (s' : A ⊎ B) × ((either_ops x y).purge t s ≡ (ok ps, s'))
          × Purges (left_view v) t s s'
    left_purge t (inl a) i =
        let (ps, a', e, w) = contract.purge_lem t a i in
        (ps, inl a', ap lift_left e, left-Purges v a a' t w)
    left_purge t (inr b) i = absurd i

    left_counts :
        (t : ℤ) (s s' : A ⊎ B) (ps : PurgeStats) (ls : List Lease) (c : Cidr)
        → (left_view v).Inv s
        → ((either_ops x y).leases s).0 ≡ ok ls
        → (either_ops x y).purge t s ≡ (ok ps, s')
        → (left_view v).known s c ≡ true
        → freed_from c ps ≡ expired_in t (restored c) ls
    left_counts t (inl a) s' ps ls c i e e' there =
        let (qs, a', done, w) = contract.purge_lem t a i in
        let same : qs ≡ ps =
          ok-injective (sym (ap (λ r. (lift_left r).0) done) ∙ ap (λ r. r.0) e') in
        sym (ap (freed_from c) same) ∙ contract.purge_counts t a a' qs ls c i e done there
    left_counts t (inr b) s' ps ls c i e e' there = absurd i

    pub left-StoreLaws : StoreLaws (either_ops x y) (left_view v)
    left-StoreLaws = record {
      stored_lem = contract.stored_lem;
      lease_lem = left_lease;
      save_lease_lem = left_save_lease;
      delete_lease_lem = left_delete_lease;
      save_subnet_lem = left_save_subnet;
      allocate_free = left_allocate_free;
      allocate_taken = left_allocate_taken;
      free_lem = left_free;
      purge_lem = left_purge;
      purge_counts = left_counts;
    }
