-- ===== src/Http/Listing.antt =====
-- HTTPHandler.interfaces (http.go): what it lists, and that it lists it in an order of its own.
use mathlib.Core.List.{Permᴰ}
use wgipam.Base.{◌≡◌, refl, ◌≢◌, Bool, List, [], ◌∷◌, map, All, arith, sym, subst, ap, ◌∙◌}
use wgipam.Base.Int.{ltb_ℤ}
use wgipam.Base.Result.{Result, ok, err, panic, hang, ok-injective, pure, ◌>>=◌, >>=-eq-ok}
use wgipam.Base.Sort.{Order, DistinctBy, IsSorted, sort_by, sort-IsSorted, sort-perm, sort_unique}
use wgipam.Net.{IpNet, Cidr, string}
use wgipam.Lease.{Lease}
use wgipam.Store.{Store}
use wgipam.Http.{
  JsonInterface, encoded, json_lease, json_of, json_interface, appended, collect, reply, interfaces,
}

-- Instants are ordered.
pub instants : Order ltb_ℤ
instants = record {
  asym_lem = λ a b h. ground arith;
  trans_lem = λ a b c h h'. ground arith;
  total_lem = λ a b h h'. ground arith;
}

-- Two lists are related element by element.
abbrev pub Zipped : {A B : Type 0} → (A → B → Type 0) → List A → List B → Type 0
Zipped R [] [] = Unit
Zipped R (a ∷ xs) (b ∷ ys) = R a b × Zipped R xs ys
Zipped R _ _ = ⊥

module _ {T S : Type 0} (name_lt : T → T → Bool) (text_lt : Cidr → Cidr → Bool) (st : Store S) where
  -- The record of one interface
  abbrev Summary : T × S → JsonInterface T → Type 0
  Summary (name, s) j = (json_interface name_lt text_lt st name s).0 ≡ ok j

  -- The interfaces are those of the stores, one by one.
  abbrev pub Listed : List (T × S) → List (JsonInterface T) → Type 0
  Listed [] [] = Unit
  Listed ((name, s) ∷ ss) (j ∷ js) =
      ((json_interface name_lt text_lt st name s).0 ≡ ok j) × Listed ss js
  Listed _ _ = ⊥

  appended-eq_ok :
      (r : Result (JsonInterface T)) (rest : Result (List (JsonInterface T)))
      (js : List (JsonInterface T))
      → appended name_lt text_lt st r rest ≡ ok js
      → (j : JsonInterface T) × (ks : List (JsonInterface T)) × (r ≡ ok j)
        × (rest ≡ ok ks)
        × (j ∷ ks ≡ js)
  appended-eq_ok (ok j) (ok ks) js h = (j, ks, refl, refl, ok-injective h)
  appended-eq_ok (ok j) (err e) js h = absurd (cc h)
  appended-eq_ok (ok j) panic js h = absurd (cc h)
  appended-eq_ok (ok j) hang js h = absurd (cc h)
  appended-eq_ok (err e) rest js h = absurd (cc h)
  appended-eq_ok panic rest js h = absurd (cc h)
  appended-eq_ok hang rest js h = absurd (cc h)

  collect-Listed :
      (ss : List (T × S)) (js : List (JsonInterface T))
      → (collect name_lt text_lt st ss).0 ≡ ok js
      → Listed ss js
  unfolding collect
  collect-Listed [] js h = subst (Listed []) (ok-injective h) tt
  collect-Listed ((name, s) ∷ ss) js h =
      let (j, ks, e, e', same) =
        appended-eq_ok (json_interface name_lt text_lt st name s).0
          (collect name_lt text_lt st ss).0 js h in
      subst (Listed ((name, s) ∷ ss)) same (e, collect-Listed ss ks e')

  Listed-collect :
      (ss : List (T × S)) (js : List (JsonInterface T))
      → Listed ss js
      → (collect name_lt text_lt st ss).0 ≡ ok js
  unfolding collect
  Listed-collect [] [] h = refl
  Listed-collect [] (j ∷ js) h = absurd h
  Listed-collect ((name, s) ∷ ss) [] h = absurd h
  Listed-collect ((name, s) ∷ ss) (j ∷ js) (e, h) = ground (arith, e, Listed-collect ss js h)

  Listed-perm :
      {xs ys : List (T × S)} (js : List (JsonInterface T))
      → Permᴰ xs ys
      → Listed xs js
      → (ks : List (JsonInterface T)) × Permᴰ js ks × Listed ys ks
  Listed-perm [] Permᴰ.nil h = ([], Permᴰ.nil, tt)
  Listed-perm (j ∷ js) Permᴰ.nil h = absurd h
  Listed-perm [] (Permᴰ.cons e p) h = absurd h
  Listed-perm (j ∷ js) (Permᴰ.cons {l₂ = ys} e p) (h, hs) =
      let (ks, q, l) = Listed-perm js p hs in
      (j ∷ ks, Permᴰ.cons refl q, (subst (λ (x : T × S). Summary x j) e h, l))
  Listed-perm [] (Permᴰ.swap e e') h = absurd h
  Listed-perm (j ∷ []) (Permᴰ.swap e e') h = absurd h.1
  Listed-perm (j ∷ k ∷ js) (Permᴰ.swap e e') (h, (h', hs)) = (
    k ∷ j ∷ js,
    Permᴰ.swap refl refl,
    (subst (λ (x : T × S). Summary x k) e' h', (subst (λ (x : T × S). Summary x j) e h, hs)),
  )
  Listed-perm js (Permᴰ.trans p p') h =
      let (ks, q, l) = Listed-perm js p h in
      let (ls, q', l') = Listed-perm ks p' l in (ls, Permᴰ.trans q q', l')

  json_interface_name :
      (name : T) (s : S) (j : JsonInterface T)
      → (json_interface name_lt text_lt st name s).0 ≡ ok j
      → j.name ≡ name
  unfolding json_interface
  json_interface_name name s j h = ground (arith, h)

  names-ne :
      (name : T) (ss : List (T × S)) (js : List (JsonInterface T))
      → All (λ (x : T × S). name ≢ x.0) ss
      → Listed ss js
      → All (λ j. name ≢ j.name) js
  names-ne name [] [] a l = tt
  names-ne name [] (j ∷ js) a l = absurd l
  names-ne name (s ∷ ss) [] a l = absurd l
  names-ne name ((n, s) ∷ ss) (j ∷ js) (ne, a) (h, l) =
      (λ e. ne (e ∙ json_interface_name n s j h), names-ne name ss js a l)

  Listed-distinct :
      (ss : List (T × S)) (js : List (JsonInterface T))
      → Listed ss js
      → DistinctBy (λ (x : T × S). x.0) ss
      → DistinctBy (λ (j : JsonInterface T). j.name) js
  Listed-distinct [] [] l d = tt
  Listed-distinct [] (j ∷ js) l d = absurd l
  Listed-distinct (s ∷ ss) [] l d = absurd l
  Listed-distinct ((n, s) ∷ ss) (j ∷ js) (h, l) (a, d) = (
    subst (λ (m : T). All (λ i. m ≢ i.name) js) (sym (json_interface_name n s j h))
        (names-ne n ss js a l),
    Listed-distinct ss js l d,
  )

  reply-eq_encoded :
      (r : Result (List (JsonInterface T))) (js : List (JsonInterface T))
      → reply name_lt text_lt st r ≡ encoded js
      → (ks : List (JsonInterface T)) × (r ≡ ok ks)
        × (sort_by (λ (i j : JsonInterface T). name_lt i.name j.name) ks ≡ js)
  reply-eq_encoded (ok ks) js h = (ks, refl, cc h)
  reply-eq_encoded (err e) js h = absurd (cc h)
  reply-eq_encoded panic js h = absurd (cc h)
  reply-eq_encoded hang js h = absurd (cc h)

  module _ (o : Order name_lt) where
    -- The order in which the map of stores is ranged over does not show: where the names are
    -- different, a response that lists the interfaces is the response for every order of them.
    pub interfaces-perm :
        (xs ys : List (T × S)) (js : List (JsonInterface T))
        → Permᴰ xs ys
        → DistinctBy (λ (x : T × S). x.0) xs
        → (interfaces name_lt text_lt st xs).0 ≡ encoded js
        → (interfaces name_lt text_lt st ys).0 ≡ encoded js
    unfolding interfaces
    interfaces-perm xs ys js p d h =
        let (ks, e, sorted) = reply-eq_encoded (collect name_lt text_lt st xs).0 js h in
        let l = collect-Listed xs ks e in
        let (ls, q, l') = Listed-perm ks p l in
        ap (reply name_lt text_lt st) (Listed-collect ys ls l')
        ∙ ap encoded (
            sym (
              sort_unique (λ (j : JsonInterface T). j.name) name_lt o q (Listed-distinct xs ks l d))
            ∙ sorted)

    module _ (ot : Order text_lt) where
      -- The record of one interface: its name, its subnets in order, and its leases by their start
      pub record Shows (x : T × S) (j : JsonInterface T) : Type 0 where
        pub name_lem : j.name ≡ x.0
        pub subnets : List IpNet
        pub leases : List Lease
        pub ordered : List Lease
        pub has_leases : (st.leases x.1).0 ≡ ok leases
        pub has_subnets : (st.subnets (st.leases x.1).1).0 ≡ ok subnets
        pub all_subnets : Permᴰ j.subnets (map string subnets)
        pub sorted_subnets : IsSorted (λ (c : Cidr). c) text_lt ot j.subnets
        pub all_leases : Permᴰ ordered leases
        pub by_start : IsSorted (λ (l : Lease). l.start) ltb_ℤ instants ordered
        pub leases_lem : j.leases ≡ map json_lease ordered

      json_interface-Shows : (x : T × S) (j : JsonInterface T) → Summary x j → Shows x j
      unfolding json_interface
      json_interface-Shows (name, s) j h =
          let (ls, e, h₁) =
            >>=-eq-ok st.leases
              (λ ls. st.subnets >>= λ ns. pure (json_of name_lt text_lt st name ls ns)) s j h in
          let (ns, e', h₂) =
            >>=-eq-ok st.subnets (λ ns. pure (json_of name_lt text_lt st name ls ns))
              (st.leases s).1 j h₁ in
          subst (Shows (name, s)) (ok-injective h₂) (record {
            name_lem = refl;
            subnets = ns;
            leases = ls;
            ordered = sort_by (λ (l m : Lease). ltb_ℤ l.start m.start) ls;
            has_leases = e;
            has_subnets = e';
            all_subnets = sort-perm (λ (c : Cidr). c) text_lt ot (map string ns);
            sorted_subnets = sort-IsSorted (λ (c : Cidr). c) text_lt ot (map string ns);
            all_leases = sort-perm (λ (l : Lease). l.start) ltb_ℤ instants ls;
            by_start = sort-IsSorted (λ (l : Lease). l.start) ltb_ℤ instants ls;
            leases_lem = refl;
          })

      Listed-Shows :
          (ss : List (T × S)) (js : List (JsonInterface T)) → Listed ss js → Zipped Shows ss js
      Listed-Shows [] [] l = tt
      Listed-Shows [] (j ∷ js) l = absurd l
      Listed-Shows (s ∷ ss) [] l = absurd l
      Listed-Shows (s ∷ ss) (j ∷ js) (h, l) = (json_interface-Shows s j h, Listed-Shows ss js l)

      -- A response that lists the interfaces lists each one once, in the order of their names: under
      -- its name, with its subnets in order, and with its leases in the order of their start.
      pub interfaces-Shows :
          (ss : List (T × S)) (js : List (JsonInterface T))
          → (interfaces name_lt text_lt st ss).0 ≡ encoded js
          → (ks : List (JsonInterface T)) × Permᴰ js ks
            × Zipped Shows ss ks
            × IsSorted (λ (j : JsonInterface T). j.name) name_lt o js
      unfolding interfaces
      interfaces-Shows ss js h =
          let (ks, e, sorted) = reply-eq_encoded (collect name_lt text_lt st ss).0 js h in
          (
            ks,
            subst (λ (is : List (JsonInterface T)). Permᴰ is ks) sorted
                (sort-perm (λ (j : JsonInterface T). j.name) name_lt o ks),
            Listed-Shows ss ks (collect-Listed ss ks e),
            subst
                (λ (is : List (JsonInterface T)).
                  IsSorted (λ (j : JsonInterface T). j.name) name_lt o is)
                sorted (sort-IsSorted (λ (j : JsonInterface T). j.name) name_lt o ks),
          )
