-- ===== src/Topology/Allocator/Unique.antt =====
-- With a checker no two nodes get the same port.
use mup.Base.{ℕ, ◌≡◌, sym, ◌∙◌, inl, inr, arith, true, false, [], ◌∷◌, some, Bool-cases}
use mup.Base.Text.{Text, text_eq, text_eq_iff}
use mup.Base.Dict.{Dict, lookup, insert, lookup-insert}
use mup.Base.Results.{Result}
use mup.Topology.Allocator.{
  PortAllocator, PortChecker, is_allocated, new_port_allocator, allocate_mongod_port,
  allocate_mongos_port, allocate_config_svr_port,
}
use mup.Topology.Allocator.Calls.{
  Allocated, remembered, refused, allocated, allocate_port-Allocated,
}

is_allocated-lookup :
    (port : ℕ) (d : Dict ℕ) (id : Text) → lookup id d ≡ some port → is_allocated port d ≡ true
unfolding is_allocated lookup
is_allocated-lookup port [] id h = absurd (cc h)
is_allocated-lookup port ((j, p) ∷ d) id h = elim (Bool-cases (text_eq j id)) [
  | inl e ↦ let same : p ≡ port = cc (rw e at h) in ground (arith, same)
  | inr e ↦ ground (arith, is_allocated-lookup port d id (rw e at h))
]

-- No two nodes have the same port.
abbrev pub NoSharing : Dict ℕ → Type 0
NoSharing d = (i j : Text) (p : ℕ) → lookup i d ≡ some p → lookup j d ≡ some p → i ≡ j

NoSharing-insert :
    (id : Text) (port : ℕ) (d : Dict ℕ)
    → is_allocated port d ≡ false
    → NoSharing d
    → NoSharing (insert id port d)
NoSharing-insert id port d new h i j p a b =
    let at_i = lookup-insert id i port d in
    let at_j = lookup-insert id j port d in
    elim (Bool-cases (text_eq id i)) [
      | inl e ↦ elim (Bool-cases (text_eq id j)) [
        | inl f ↦ sym ((text_eq_iff id i).0 e) ∙ (text_eq_iff id j).0 f
        | inr f ↦
            let same : port ≡ p = cc (rw e at at_i, a) in
            absurd (cc (new, is_allocated-lookup port d j (rw same (sym (rw f at at_j) ∙ b))))
      ]
      | inr e ↦ elim (Bool-cases (text_eq id j)) [
        | inl f ↦
            let same : port ≡ p = cc (rw f at at_j, b) in
            absurd (cc (new, is_allocated-lookup port d i (rw same (sym (rw e at at_i) ∙ a))))
        | inr f ↦ h i j p (sym (rw e at at_i) ∙ a) (sym (rw f at at_j) ∙ b)
      ]
    ]

Allocated-NoSharing :
    (check : PortChecker) (id : Text) (offset : ℕ) (pa : PortAllocator)
    (r : Result ℕ × PortAllocator)
    → Allocated check id offset pa r
    → NoSharing pa.allocations
    → NoSharing r.1.allocations
Allocated-NoSharing check id offset pa _ (remembered port e) h = h
Allocated-NoSharing check id offset pa _ (refused e f g) h = h
Allocated-NoSharing check id offset pa _ (allocated port pa' e free same moved) h =
    rw same (NoSharing-insert id port pa.allocations free.is_new h)

-- The states of an allocator with a checker, whose answers may differ from call to call.
pub data Reachable : PortAllocator → Type 0 where
  start : (base : ℕ) → Reachable (new_port_allocator base)
  mongod :
      {pa : PortAllocator} (check : PortChecker) (host : Text) (index : ℕ)
      → Reachable pa
      → Reachable (allocate_mongod_port (some check) host index pa).1
  mongos :
      {pa : PortAllocator} (check : PortChecker) (host : Text) (index : ℕ)
      → Reachable pa
      → Reachable (allocate_mongos_port (some check) host index pa).1
  config_svr :
      {pa : PortAllocator} (check : PortChecker) (host : Text) (index : ℕ)
      → Reachable pa
      → Reachable (allocate_config_svr_port (some check) host index pa).1

-- An allocator with a checker never gives the same port to two nodes, in whatever order and for
-- whatever nodes its functions are called.
pub Reachable-NoSharing : (pa : PortAllocator) → Reachable pa → NoSharing pa.allocations
unfolding new_port_allocator lookup allocate_mongod_port allocate_mongos_port
    allocate_config_svr_port
Reachable-NoSharing _ (start base) = λ i j p a b. absurd (cc a)
Reachable-NoSharing _ (mongod {pa = pa} check host index r) =
    Allocated-NoSharing check _ _ pa _ (allocate_port-Allocated check _ _ pa)
      (Reachable-NoSharing pa r)
Reachable-NoSharing _ (mongos {pa = pa} check host index r) =
    Allocated-NoSharing check _ _ pa _ (allocate_port-Allocated check _ _ pa)
      (Reachable-NoSharing pa r)
Reachable-NoSharing _ (config_svr {pa = pa} check host index r) =
    Allocated-NoSharing check _ _ pa _ (allocate_port-Allocated check _ _ pa)
      (Reachable-NoSharing pa r)
