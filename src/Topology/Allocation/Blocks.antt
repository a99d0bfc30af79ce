-- ===== src/Topology/Allocation/Blocks.antt =====
-- The ports that the nodes get.
use mathlib.Core.Path.{subst}
use mup.Base.{
  ℕ, zero, suc, ◌+◌, ◌*◌, ◌≤◌, ◌<◌, ◌≡◌, refl, ◌∙◌, sym, ap, inl, inr, arith, Bool, true, false,
  List, [], ◌∷◌, ◌++◌, map, Option, none, some, get_elem?, ◌==◌, if◌then◌else◌, Bool-cases,
  Option-cases,
}
use mup.Base.Int.{ℤ, pos, eqb_ℤ}
use mup.Base.Results.{Error}
use mup.Topology.{Topology, MongodNode, MongosNode, ConfigNode, is_local_deployment}
use mup.Topology.Allocation.{
  default_base_port, port_increment, max_attempts, count_needed, ports_from, block_available,
  find_block, assign_ports, mongod_port, mongos_port, config_port, set_mongod_port, set_mongos_port,
  set_config_port, ports_needed, assign_all, allocate_ports_for_topology,
}

-- The ports with the zeros numbered from `base` on.
abbrev pub numbered : ℕ → List ℤ → List ℤ
numbered base [] = []
numbered base (p ∷ ps) =
    if eqb_ℤ p (pos 0) then pos base ∷ numbered (suc base) ps else p ∷ numbered base ps

get_elem?-ports_from : (base n i : ℕ) → i < n → get_elem? (ports_from base n) i ≡ some (base + i)
get_elem?-ports_from base zero i h = absurd (omega arith)
get_elem?-ports_from base (suc n) zero h = ap some (omega arith)
get_elem?-ports_from base (suc n) (suc i) h =
    get_elem?-ports_from (suc base) n i (omega arith) ∙ ap some (omega arith)

module _ {N : Type 0} (get : N → ℤ) (put : ℤ → N → N) where
  count_needed-zero :
      (node : N) (nodes : List N)
      → eqb_ℤ (get node) (pos 0) ≡ true
      → count_needed get (node ∷ nodes) ≡ suc (count_needed get nodes)
  unfolding count_needed
  count_needed-zero node nodes e = rw e

  count_needed-kept :
      (node : N) (nodes : List N)
      → eqb_ℤ (get node) (pos 0) ≡ false
      → count_needed get (node ∷ nodes) ≡ count_needed get nodes
  unfolding count_needed
  count_needed-kept node nodes e = rw e

  assign_ports-zero :
      (ports : List ℕ) (index port : ℕ) (node : N) (nodes nodes' : List N) (last : ℕ)
      → eqb_ℤ (get node) (pos 0) ≡ true
      → get_elem? ports index ≡ some port
      → assign_ports get put ports (suc index) nodes ≡ some (nodes', last)
      → assign_ports get put ports index (node ∷ nodes) ≡ some (put (pos port) node ∷ nodes', last)
  unfolding assign_ports
  assign_ports-zero ports index port node nodes nodes' last e g h = rw (e, g, h, assign_ports)

  assign_ports-kept :
      (ports : List ℕ) (index : ℕ) (node : N) (nodes nodes' : List N) (last : ℕ)
      → eqb_ℤ (get node) (pos 0) ≡ false
      → assign_ports get put ports index nodes ≡ some (nodes', last)
      → assign_ports get put ports index (node ∷ nodes) ≡ some (node ∷ nodes', last)
  unfolding assign_ports
  assign_ports-kept ports index node nodes nodes' last e h = rw (e, h, assign_ports)

  assign_ports-nil :
      (ports : List ℕ) (index : ℕ)
      → assign_ports get put ports index [] ≡ some ([], index + count_needed get [])
  unfolding assign_ports count_needed
  assign_ports-nil ports index = ap (λ i. some ([], i)) (omega arith)

  -- What a loop makes of the nodes: as many ports are used as are needed.
  pub record Assigned (base index : ℕ) (nodes : List N) (result : Option (List N × ℕ))
      : Type 0 where
    pub assigned : List N
    pub is_result : result ≡ some (assigned, index + count_needed get nodes)
    pub are_numbered : map get assigned ≡ numbered (base + index) (map get nodes)

module _ {N : Type 0} (get : N → ℤ) (put : ℤ → N → N)
    (get-put : (p : ℤ) (node : N) → get (put p node) ≡ p) where
  assign_ports-Assigned :
      (base n index : ℕ) (nodes : List N)
      → index + count_needed get nodes ≤ n
      → Assigned get put base index nodes (assign_ports get put (ports_from base n) index nodes)
  assign_ports-Assigned base n index [] h = record {
    assigned = [];
    is_result = assign_ports-nil get put (ports_from base n) index;
    are_numbered = refl;
  }
  assign_ports-Assigned base n index (node ∷ nodes) h =
      elim (Bool-cases (eqb_ℤ (get node) (pos 0))) [
        | inl e ↦
            let count = count_needed-zero get put node nodes e in
            let rest = assign_ports-Assigned base n (suc index) nodes (omega (arith, count)) in
            record {
              assigned = put (pos (base + index)) node ∷ rest.assigned;
              is_result =
                  assign_ports-zero get put (ports_from base n) index (base + index) node nodes
                    rest.assigned _ e (get_elem?-ports_from base n index (omega (arith, count)))
                    rest.is_result
                  ∙ ap (λ i. some (put (pos (base + index)) node ∷ rest.assigned, i))
                      (omega (arith, count));
              are_numbered =
                  rw (e, get-put (pos (base + index)) node)
                    (ap (λ ps. pos (base + index) ∷ ps)
                      (rest.are_numbered ∙ ap (λ i. numbered i (map get nodes)) (omega arith)));
            }
        | inr e ↦
            let count = count_needed-kept get put node nodes e in
            let rest = assign_ports-Assigned base n index nodes (omega (arith, count)) in
            record {
              assigned = node ∷ rest.assigned;
              is_result =
                  assign_ports-kept get put (ports_from base n) index node nodes rest.assigned _ e
                    rest.is_result
                  ∙ ap (λ i. some (node ∷ rest.assigned, i)) (omega (arith, count));
              are_numbered = rw e (ap (λ ps. get node ∷ ps) rest.are_numbered);
            }
      ]

-- The whole block is available at the attempt.
abbrev pub IsFree : (ℕ → Bool) → ℕ → ℕ → Type 0
IsFree available base n = (i : ℕ) → i < n → available (base + i) ≡ true

block_available-IsFree :
    (available : ℕ → Bool) (base n : ℕ)
    → block_available available base n ≡ true
    → IsFree available base n
unfolding block_available
block_available-IsFree available base zero h i j = absurd (omega arith)
block_available-IsFree available base (suc n) h zero j = elim (Bool-cases (available base)) [
  | inl e ↦ ap available (omega arith) ∙ e
  | inr e ↦ absurd (cc (rw e at h))
]
block_available-IsFree available base (suc n) h (suc i) j = elim (Bool-cases (available base)) [
  | inl e ↦
      ap available (omega arith)
      ∙ block_available-IsFree available (suc base) n (rw e at h) i (omega arith)
  | inr e ↦ absurd (cc (rw e at h))
]

IsFree-block_available :
    (available : ℕ → Bool) (base n : ℕ)
    → IsFree available base n
    → block_available available base n ≡ true
unfolding block_available
IsFree-block_available available base zero h = refl
IsFree-block_available available base (suc n) h =
    let same : base ≡ base + 0 = omega arith in
    rw (ap available same ∙ h 0 (omega arith)) (
      IsFree-block_available available (suc base) n
        (λ i j. ap available (omega arith) ∙ h (suc i) (omega arith)))

abbrev pub base_of : ℕ → ℕ
base_of attempt = default_base_port + attempt * port_increment

abbrev pub Found : (ℕ → ℕ → Bool) → ℕ → ℕ → ℕ → ℕ → Type 0
Found available needed from last base =
    (attempt : ℕ) × (from ≤ attempt)
    × (attempt < last)
    × (base ≡ base_of attempt)
    × IsFree (available attempt) base needed

find_block-Found :
    (available : ℕ → ℕ → Bool) (needed attempt left base : ℕ)
    → find_block available needed attempt left ≡ some base
    → Found available needed attempt (attempt + left) base
unfolding find_block
find_block-Found available needed attempt zero base h = absurd (cc h)
find_block-Found available needed attempt (suc left) base h =
    elim (Bool-cases (block_available (available attempt) (base_of attempt) needed)) [
      | inl e ↦
          let same : base_of attempt ≡ base = cc (rw e at h) in
          (
            attempt,
            omega arith,
            omega arith,
            sym same,
            rw (sym same) (block_available-IsFree (available attempt) (base_of attempt) needed e),
          )
      | inr e ↦
          let (a, lo, hi, b, f) =
            find_block-Found available needed (suc attempt) left base (rw e at h) in
          (a, omega arith, omega arith, b, f)
    ]

find_block-none :
    (available : ℕ → ℕ → Bool) (needed attempt left : ℕ)
    → find_block available needed attempt left ≡ none
    → (a : ℕ) → attempt ≤ a
    → a < attempt + left
    → ¬ IsFree (available a) (base_of a) needed
unfolding find_block
find_block-none available needed attempt zero h a lo hi f = absurd (omega arith)
find_block-none available needed attempt (suc left) h a lo hi f =
    elim (Bool-cases (block_available (available attempt) (base_of attempt) needed)) [
      | inl e ↦ absurd (cc (rw e at h))
      | inr e ↦ elim (Bool-cases (a == attempt)) [
        | inl q ↦
            let same : a ≡ attempt = ground arith in
            absurd (
              cc (
                e,
                IsFree-block_available (available attempt) (base_of attempt) needed
                    (subst (λ x. IsFree (available x) (base_of x) needed) same f),
              ))
        | inr q ↦
            find_block-none available needed (suc attempt) left (rw e at h) a (ground arith)
              (omega arith) f
      ]
    ]

numbered-append :
    {N : Type 0} (base : ℕ) (get : N → ℤ) (nodes : List N) (qs : List ℤ)
    → numbered base (map get nodes ++ qs)
      ≡ numbered base (map get nodes) ++ numbered (base + count_needed get nodes) qs
unfolding count_needed
numbered-append base get [] qs = ap (λ b. numbered b qs) (omega arith)
numbered-append base get (node ∷ nodes) qs = elim (Bool-cases (eqb_ℤ (get node) (pos 0))) [
  | inl e ↦ rw e (
      ap (λ ps. pos base ∷ ps)
        (numbered-append (suc base) get nodes qs
          ∙ ap (λ b. numbered (suc base) (map get nodes) ++ numbered b qs) (omega arith)))
  | inr e ↦ rw e (ap (λ ps. get node ∷ ps) (numbered-append base get nodes qs))
]

combine :
    {xs xs' ys ys' zs zs' : List ℤ}
    → xs ≡ xs'
    → ys ≡ ys'
    → zs ≡ zs'
    → xs ++ (ys ++ zs) ≡ xs' ++ (ys' ++ zs')
combine h k l = cc (h, k, l)

module _ {V : Type 0} where
  -- The ports in the order in which they are assigned.
  abbrev pub ports_of : Topology V → List ℤ
  ports_of t =
      map config_port t.config_nodes
      ++ (map mongod_port t.mongod_nodes ++ map mongos_port t.mongos_nodes)

  assign_all-ok :
      (t : Topology V) (ports : List ℕ) (configs : List (ConfigNode V))
      (mongods : List (MongodNode V)) (mongoses : List (MongosNode V)) (i j k : ℕ)
      → assign_ports config_port set_config_port ports 0 t.config_nodes ≡ some (configs, i)
      → assign_ports mongod_port set_mongod_port ports i t.mongod_nodes ≡ some (mongods, j)
      → assign_ports mongos_port set_mongos_port ports j t.mongos_nodes ≡ some (mongoses, k)
      → assign_all ports t
        ≡ some
            (record t { config_nodes = configs; mongod_nodes = mongods; mongos_nodes = mongoses })
  unfolding assign_all
  assign_all-ok t ports configs mongods mongoses i j k a b c = rw (a, b, c, assign_all)

  -- The ports of a block are numbered off over the nodes; a port that is set stays.
  assign_all-numbered :
      (t : Topology V) (base : ℕ)
      → (t' : Topology V) × (assign_all (ports_from base (ports_needed t)) t ≡ some t')
        × (ports_of t' ≡ numbered base (ports_of t))
  unfolding ports_needed
  assign_all-numbered t base =
      let n = ports_needed t in
      let c = count_needed config_port t.config_nodes in
      let m = count_needed mongod_port t.mongod_nodes in
      let first =
        assign_ports-Assigned config_port set_config_port (λ p node. refl) base n 0 t.config_nodes
          (omega arith) in
      let second =
        assign_ports-Assigned mongod_port set_mongod_port (λ p node. refl) base n (0 + c)
          t.mongod_nodes (omega arith) in
      let third =
        assign_ports-Assigned mongos_port set_mongos_port (λ p node. refl) base n (0 + c + m)
          t.mongos_nodes (omega arith) in
      (
        _,
        assign_all-ok t (ports_from base n) first.assigned second.assigned third.assigned _ _ _
            first.is_result second.is_result third.is_result,
        combine first.are_numbered second.are_numbered third.are_numbered
            ∙ combine (ap (λ b. numbered b (map config_port t.config_nodes)) (omega arith))
                (ap (λ b. numbered b (map mongod_port t.mongod_nodes)) (omega arith))
                (ap (λ b. numbered b (map mongos_port t.mongos_nodes)) (omega arith))
            ∙ sym (
                numbered-append base config_port t.config_nodes
                  (map mongod_port t.mongod_nodes ++ map mongos_port t.mongos_nodes)
                ∙ ap (λ ps. numbered base (map config_port t.config_nodes) ++ ps)
                    (numbered-append (base + c) mongod_port t.mongod_nodes
                      (map mongos_port t.mongos_nodes))),
      )

  -- A block of available ports at one of the attempts, and the topology with them assigned.
  pub record Allocates (available : ℕ → ℕ → Bool) (t t' : Topology V) : Type 0 where
    pub attempt : ℕ
    pub in_bounds : attempt < max_attempts
    pub is_free : IsFree (available attempt) (base_of attempt) (ports_needed t)
    pub assigned_ports : ports_of t' ≡ numbered (base_of attempt) (ports_of t)

  -- What the allocation comes to.
  pub data Ends (available : ℕ → ℕ → Bool) (t : Topology V)
      : Option (Option Error × Topology V) → Type 0 where
    is_remote : (e : Error) → is_local_deployment t ≡ false → Ends available t (some (some e, t))
    needs_none : ports_needed t ≡ 0 → Ends available t (some (none, t))
    finds_none :
        (e : Error)
        → ((attempt : ℕ)
            → attempt < max_attempts
            → ¬ IsFree (available attempt) (base_of attempt) (ports_needed t))
        → Ends available t (some (some e, t))
    allocates : (t' : Topology V) → Allocates available t t' → Ends available t (some (none, t'))

  -- `AllocatePortsForTopology` never panics. It returns an error and changes nothing if a host is
  -- not local, or if at each attempt some port of the block is not available. It returns no error
  -- if no node needs a port, or after the nodes without a port, config servers first and mongos
  -- nodes last, have got the ports of a block that was available, one after another.
  pub allocate_ports_for_topology-Ends :
      (available : ℕ → ℕ → Bool) (t : Topology V)
      → Ends available t (allocate_ports_for_topology available t)
  unfolding allocate_ports_for_topology
  allocate_ports_for_topology-Ends available t = elim (Bool-cases (is_local_deployment t)) [
    | inr l ↦ rw l (is_remote _ l)
    | inl l ↦ elim (Bool-cases (ports_needed t == 0)) [
      | inl z ↦ rw (l, z) (needs_none (ground arith))
      | inr z ↦ elim (Option-cases (find_block available (ports_needed t) 0 max_attempts)) [
        | inl f ↦
            rw (l, z, f, allocate_ports_for_topology)
              (finds_none _ (λ a hi.
                find_block-none available (ports_needed t) 0 max_attempts f a (omega arith) hi))
        | inr (base, f) ↦
            let (a, lo, hi, same, free) =
              find_block-Found available (ports_needed t) 0 max_attempts base f in
            let (t', r, n) = assign_all-numbered t base in
            rw (l, z, f, allocate_ports_for_topology, r)
              (allocates t' (record {
                attempt = a;
                in_bounds = hi;
                is_free = rw (sym same) free;
                assigned_ports = n ∙ ap (λ b. numbered b (ports_of t)) same;
              }))
      ]
    ]
  ]
