-- ===== src/Topology/Allocator/Calls.antt =====
-- What a call of the allocator with a checker gives out, and why it fails.
use mup.Base.{
  ℕ, zero, suc, ◌+◌, ◌++◌, ◌≤◌, ◌<◌, ◌≡◌, refl, sym, ◌⊎◌, inl, inr, arith, true, false, none, some,
  leb, ◌==◌, Bool-cases, Option-cases,
}
use mup.Base.Text.{Text, codes, show_nat}
use mup.Base.Dict.{Dict, lookup, insert}
use mup.Base.Results.{Error, Result, ok, err, Result-cases}
use mup.Topology.Allocator.{
  check_error, PortAllocator, PortChecker, is_allocated, scan_ports, find_available_port,
  update_next_port, choose_port, allocate_port, max_port_scan_attempts, scan_failed,
  allocate_mongod_port, allocate_mongos_port, allocate_config_svr_port,
}

-- A port that the scan passes over: it is given out, or in use.
abbrev pub IsTaken : PortChecker → Dict ℕ → ℕ → Type 0
IsTaken check d p = (is_allocated p d ≡ true) ⊎ (check p ≡ ok false)

-- The scan's port: the first from the start on, and before the limit, that is neither given out nor
-- in use.
pub record IsFirstFree (check : PortChecker) (d : Dict ℕ) (start limit port : ℕ) : Type 0 where
  pub not_before : start ≤ port
  pub not_beyond : port < limit
  pub is_new : is_allocated port d ≡ false
  pub is_available : check port ≡ ok true
  pub is_first : (p : ℕ) → start ≤ p → p < port → IsTaken check d p

-- Why a scan from `origin` on fails, and with which error, seen from a later start: all its ports are taken, or the check of one fails and those before it are taken.
pub data ScanFails (check : PortChecker) (d : Dict ℕ) (origin start limit : ℕ) (e : Error)
    : Type 0 where
  all_taken :
      e ≡ scan_failed origin
      → ((p : ℕ) → start ≤ p → p < limit → IsTaken check d p)
      → ScanFails check d origin start limit e
  check_failed :
      (p : ℕ) (x : Error)
      → start ≤ p
      → p < limit
      → is_allocated p d ≡ false
      → check p ≡ err x
      → e ≡ check_error p x
      → ((q : ℕ) → start ≤ q → q < p → IsTaken check d q)
      → ScanFails check d origin start limit e

take_from :
    (check : PortChecker) (d : Dict ℕ) (from port : ℕ)
    → IsTaken check d from
    → ((p : ℕ) → suc from ≤ p → p < port → IsTaken check d p)
    → (p : ℕ) → from ≤ p
    → p < port
    → IsTaken check d p
take_from check d from port here rest p lo hi = elim (Bool-cases (p == from)) [
  | inl e ↦ let same : from ≡ p = ground arith in rw (sym same) here
  | inr e ↦ rest p (ground arith) hi
]

-- What a scan with that many attempts left comes to.
pub data Scanned (check : PortChecker) (d : Dict ℕ) (origin start limit : ℕ)
    : Result ℕ → Type 0 where
  found :
      (port : ℕ)
      → IsFirstFree check d start limit port
      → Scanned check d origin start limit (ok port)
  failed :
      (e : Error)
      → ScanFails check d origin start limit e
      → Scanned check d origin start limit (err e)

Scanned-skip :
    (check : PortChecker) (d : Dict ℕ) (origin from limit : ℕ) (r : Result ℕ)
    → IsTaken check d from
    → Scanned check d origin (suc from) limit r
    → Scanned check d origin from limit r
Scanned-skip check d origin from limit _ here (found port f) = found port (record {
  not_before = omega (arith, f.not_before);
  not_beyond = f.not_beyond;
  is_new = f.is_new;
  is_available = f.is_available;
  is_first = take_from check d from port here f.is_first;
})
Scanned-skip check d origin from limit _ here (failed e (all_taken m t)) =
    failed e (all_taken m (take_from check d from limit here t))
Scanned-skip check d origin from limit _ here
      (failed e (check_failed p x lo hi new fails same before)) =
    failed e (
      check_failed p x (omega (arith, lo)) hi new fails same (take_from check d from p here before))

scan_ports-Scanned :
    (check : PortChecker) (d : Dict ℕ) (start left from : ℕ)
    → Scanned check d start from (from + left) (scan_ports check d start left from)
unfolding scan_ports
scan_ports-Scanned check d start zero from =
    failed _ (all_taken refl (λ p lo hi. absurd (omega arith)))
scan_ports-Scanned check d start (suc left) from =
    let next : Scanned check d start (suc from) (from + suc left)
        (scan_ports check d start left (suc from)) =
      let same : suc from + left ≡ from + suc left = omega arith in
      rw same at (scan_ports-Scanned check d start left (suc from)) in
    elim (Bool-cases (is_allocated from d)) [
      | inl e ↦ rw e (Scanned-skip check d start from _ _ (inl e) next)
      | inr e ↦ elim (Result-cases (check from)) [
        | inl (x, c) ↦
            rw (e, c)
              (failed _ (
                check_failed from x (omega arith) (omega arith) e c refl
                  (λ q lo hi. absurd (omega arith))))
        | inr (true, c) ↦
            rw (e, c)
              (found from (record {
                not_before = omega arith;
                not_beyond = omega arith;
                is_new = e;
                is_available = c;
                is_first = λ p lo hi. absurd (omega arith);
              }))
        | inr (false, c) ↦ rw (e, c) (Scanned-skip check d start from _ _ (inr c) next)
      ]
    ]

update_next_port-allocations :
    (port : ℕ) (pa : PortAllocator) → (update_next_port port pa).allocations ≡ pa.allocations
unfolding update_next_port
update_next_port-allocations port pa = elim (Bool-cases (leb pa.next_port port)) [
  | inl e ↦ rw e
  | inr e ↦ rw e
]

-- The next port moves past a port that is given out, and never back.
pub record Advances (port : ℕ) (pa pa' : PortAllocator) : Type 0 where
  pub same_base : pa'.base_port ≡ pa.base_port
  pub past : port < pa'.next_port
  pub not_back : pa.next_port ≤ pa'.next_port
  pub least : (pa'.next_port ≡ pa.next_port) ⊎ (pa'.next_port ≡ suc port)

update_next_port-Advances :
    (port : ℕ) (pa : PortAllocator) → Advances port pa (update_next_port port pa)
unfolding update_next_port
update_next_port-Advances port pa = elim (Bool-cases (leb pa.next_port port)) [
  | inl e ↦
      rw e
        (record { same_base = refl; past = omega arith; not_back = ground arith; least = inr refl })
  | inr e ↦
      rw e
        (record { same_base = refl; past = ground arith; not_back = omega arith; least = inl refl })
]

-- What a call with a checker does: it remembers the node's port, or its scan of a thousand ports
-- fails, or it gives out the first free one of them.
pub data Allocated (check : PortChecker) (id : Text) (offset : ℕ) (pa : PortAllocator)
    : Result ℕ × PortAllocator → Type 0 where
  remembered :
      (port : ℕ) → lookup id pa.allocations ≡ some port → Allocated check id offset pa (ok port, pa)
  refused :
      (e : Error)
      → lookup id pa.allocations ≡ none
      → ScanFails check pa.allocations
          (pa.base_port + offset)
          (pa.base_port + offset)
          (pa.base_port + offset + 1000)
          e
      → Allocated check id offset pa (err e, pa)
  allocated :
      (port : ℕ) (pa' : PortAllocator)
      → lookup id pa.allocations ≡ none
      → IsFirstFree check pa.allocations (pa.base_port + offset) (pa.base_port + offset + 1000) port
      → pa'.allocations ≡ insert id port pa.allocations
      → Advances port pa pa'
      → Allocated check id offset pa (ok port, pa')

chosen-Allocated :
    (check : PortChecker) (id : Text) (offset : ℕ) (pa : PortAllocator) (r : Result ℕ)
    → lookup id pa.allocations ≡ none
    → Scanned check pa.allocations
        (pa.base_port + offset)
        (pa.base_port + offset)
        (pa.base_port + offset + 1000)
        r
    → choose_port (some check) pa.allocations (pa.base_port + offset) ≡ r
    → Allocated check id offset pa (allocate_port (some check) id offset pa)
unfolding allocate_port
chosen-Allocated check id offset pa _ e (failed x f) c = rw (e, c, allocate_port) (refused x e f)
chosen-Allocated check id offset pa _ e (found port f) c =
    let before : PortAllocator = record pa { allocations = insert id port pa.allocations } in
    let a = update_next_port-Advances port before in
    rw (e, c, allocate_port)
      (allocated port (update_next_port port before) e f (update_next_port-allocations port before)
        (record { same_base = a.same_base; past = a.past; not_back = a.not_back; least = a.least }))

pub allocate_port-Allocated :
    (check : PortChecker) (id : Text) (offset : ℕ) (pa : PortAllocator)
    → Allocated check id offset pa (allocate_port (some check) id offset pa)
unfolding allocate_port choose_port find_available_port
allocate_port-Allocated check id offset pa = elim (Option-cases (lookup id pa.allocations)) [
  | inr (port, e) ↦ rw (e, allocate_port) (remembered port e)
  | inl e ↦
      let start = pa.base_port + offset in
      chosen-Allocated check id offset pa _ e
        (scan_ports-Scanned check pa.allocations start max_port_scan_attempts start) refl
]

-- What AllocateMongodPort, AllocateMongosPort and AllocateConfigSvrPort do with a checker. The three
-- start at the base port plus the index, plus 0, 1000 and 2000 in this order, and know the node by
-- host, kind and index. A node that has a port gets it again, and nothing changes. Otherwise the call
-- gives out the first of a thousand ports from there on that no node has and that the checker finds
-- available, records it, and moves the next port past it if it is not. It returns an error, and changes
-- nothing, only where all the thousand are taken or where the check of one fails before a free one.
pub allocate_ports-Allocated :
    (check : PortChecker) (host : Text) (index : ℕ) (pa : PortAllocator)
    → Allocated check
        (host ++ codes ":mongod:" ++ show_nat index)
        (0 + index)
        pa
        (allocate_mongod_port (some check) host index pa)
      × Allocated check
          (host ++ codes ":mongos:" ++ show_nat index)
          (1000 + index)
          pa
          (allocate_mongos_port (some check) host index pa)
      × Allocated check
          (host ++ codes ":config:" ++ show_nat index)
          (2000 + index)
          pa
          (allocate_config_svr_port (some check) host index pa)
unfolding allocate_mongod_port allocate_mongos_port allocate_config_svr_port
allocate_ports-Allocated check host index pa = (
  allocate_port-Allocated check _ (0 + index) pa,
  allocate_port-Allocated check _ (1000 + index) pa,
  allocate_port-Allocated check _ (2000 + index) pa,
)
