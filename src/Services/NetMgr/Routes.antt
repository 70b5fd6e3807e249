-- ===== src/Services/NetMgr/Routes.antt =====
-- The routing table of services/netmgr/netmgr.c: adding, deleting and looking up.
use operating_system_sctrach.Common.{
  ℕ, zero, suc, ◌≡◌, refl, sym, ap, subst, ◌∙◌, ◌<◌, List, [], ◌∷◌, ◌++◌, Option, none, some, true,
  false, ◌==◌, leb, ==_refl, find_first, find_first_hit, set, length, All, bit_and, arith,
  Bool-cases, inl, inr, min, ◌/◌,
}
use Prim.Native.Nat.{digits, bit_and-bitwise}
use operating_system_sctrach.Common.Int.{pos}
use operating_system_sctrach.Services.NetMgr.{
  NetMgr, RouteEntry, route, add_route, del_route, is_route, without_last, last_or, lookup_route,
  init_defaults, default_route, max_routes, first_route, entry_of,
}

without_last-append : (rs : List RouteEntry) (r : RouteEntry) → without_last (rs ++ (r ∷ [])) ≡ rs
unfolding without_last
without_last-append [] r = refl
without_last-append (q ∷ []) r = refl
without_last-append (q ∷ p ∷ rs) r = ap (λ l. q ∷ l) (without_last-append (p ∷ rs) r)

set-end : (rs : List RouteEntry) (r : RouteEntry) → set rs (length rs) r ≡ rs
set-end [] r = refl
set-end (q ∷ rs) r = ap (λ l. q ∷ l) (set-end rs r)

-- A route that is added and then deleted leaves the table as it was, if the table had room and no route to
-- the same network.
pub del_route-add_route :
    (s : NetMgr) (dest netmask gateway : ℕ) (iface : List ℕ)
    → length s.routes < max_routes
    → All (λ r. is_route dest netmask r ≡ false) s.routes
    → let (s', status) = add_route s dest netmask gateway (some iface) in
      (status ≡ pos 0) × (del_route s' dest netmask ≡ s)
unfolding add_route del_route route
del_route-add_route s dest netmask gateway iface room other =
    let r = route dest netmask gateway iface in
    let room_left : leb max_routes (length s.routes) ≡ false = ground arith in
    let hit =
      find_first_hit (is_route dest netmask) s.routes r [] other
        (rw (==_refl dest, ==_refl netmask) refl) in
    let back : del_route (record s { routes = s.routes ++ (r ∷ []) }) dest netmask ≡ s =
      ap
        (λ (o : Option (ℕ × RouteEntry)). elim o [
          | none ↦ record s { routes = s.routes ++ (r ∷ []) }
          | some (i, q) ↦ record s {
            routes = set (without_last (s.routes ++ (r ∷ []))) i (last_or q (s.routes ++ (r ∷ [])));
          }
        ])
        hit
      ∙ ap (λ rs. record s { routes = rs })
          (ap (λ rs. set rs (length s.routes) (last_or r (s.routes ++ (r ∷ []))))
              (without_last-append s.routes r)
            ∙ set-end s.routes (last_or r (s.routes ++ (r ∷ [])))) in
    rw (add_route, room_left) (refl, back)

digits-zero : (n a : ℕ) → digits (λ b. zero) min n a 0 ≡ 0
digits-zero zero a = refl
digits-zero (suc n) zero = refl
digits-zero (suc n) (suc a) = omega (arith, digits-zero n (suc a / 2))

bit_and_zero : (n : ℕ) → bit_and n 0 ≡ 0
bit_and_zero n = (λ i. bit_and-bitwise n 0 i) ∙ digits-zero n n

-- The routes that are added one after another.
abbrev pub add_all : NetMgr → List (ℕ × ℕ × ℕ × List ℕ) → NetMgr
add_all s [] = s
add_all s ((dest, netmask, gateway, iface) ∷ rs) =
    add_all (add_route s dest netmask gateway (some iface)).0 rs

-- The first route stays the first.
add_route-first :
    (s : NetMgr) (dest netmask gateway : ℕ) (iface : List ℕ) (r : RouteEntry)
    → first_route s.routes ≡ some r
    → first_route (add_route s dest netmask gateway (some iface)).0.routes ≡ some r
unfolding add_route
add_route-first s dest netmask gateway iface r e =
    elim (Bool-cases (leb max_routes (length s.routes))) [
      | inl k ↦ rw (add_route, k) e
      | inr k ↦ rw (add_route, k) (grow s.routes e)
    ]
  where
    grow :
        (rs : List RouteEntry)
        → first_route rs ≡ some r
        → first_route (rs ++ (route dest netmask gateway iface ∷ [])) ≡ some r
    grow [] k = absurd (ground arith)
    grow (q ∷ rs) k = k

add_all-first :
    (rs : List (ℕ × ℕ × ℕ × List ℕ)) (s : NetMgr) (r : RouteEntry)
    → first_route s.routes ≡ some r
    → first_route (add_all s rs).routes ≡ some r
add_all-first [] s r e = e
add_all-first ((dest, netmask, gateway, iface) ∷ rs) s r e =
    add_all-first rs (add_route s dest netmask gateway (some iface)).0 r
      (add_route-first s dest netmask gateway iface r e)

lookup_route-first :
    (s : NetMgr) (dest_ip : ℕ) (r : RouteEntry)
    → first_route s.routes ≡ some r
    → bit_and dest_ip r.netmask ≡ r.dest
    → lookup_route s dest_ip ≡ some r
unfolding lookup_route find_first
lookup_route-first s dest_ip r e h = go s.routes e
  where
    go :
        (rs : List RouteEntry)
        → first_route rs ≡ some r
        → entry_of
            (find_first (λ (q : RouteEntry). bit_and dest_ip q.netmask == q.dest) rs)
            (first_route rs)
          ≡ some r
    go [] k = absurd (ground arith)
    go (q ∷ rs) k =
        let same : q ≡ r = cc in
        let matches : (bit_and dest_ip q.netmask == q.dest) ≡ true =
          subst (λ (x : RouteEntry). (bit_and dest_ip x.netmask == x.dest) ≡ true) (sym same)
            (ground arith) in
        rw (find_first, matches) k

-- The lookup takes the first route that matches, and the default route of `netmgr_init_defaults` stands
-- first and matches every address: however many routes are added, every lookup gives the default route.
pub lookup_route-add_all :
    (rs : List (ℕ × ℕ × ℕ × List ℕ)) (s : NetMgr) (dest_ip : ℕ)
    → s.ifaces ≡ []
    → lookup_route (add_all (init_defaults s) rs) dest_ip ≡ some default_route
unfolding init_defaults
lookup_route-add_all rs s dest_ip e =
    lookup_route-first (add_all (init_defaults s) rs) dest_ip default_route
      (add_all-first rs (init_defaults s) default_route (rw (init_defaults, e) refl))
      (bit_and_zero dest_ip)
