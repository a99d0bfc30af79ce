-- ===== src/Topology/Validation.antt =====
-- A topology passes the validation exactly if it is well formed.
use mup.Base.{
  ◌≡◌, ◌≢◌, refl, ap, ◌∙◌, sym, Bool, true, false, ◌&&◌, List, [], ◌++◌, map, none, ◌↔◌, length,
  ◌==◌,
}
use mup.Base.Text.{Text}
use mup.Base.Results.{is_ok, ◌>>=◌}
use mup.Topology.{
  Topology, MongodNode, MongosNode, ConfigNode, GlobalConfig, check_all, check_mongod, check_mongos,
  check_config, check_nodes, validate, is_local_deployment, fill_global,
}
use mup.Topology.Ports.{Endpoint, All, Distinct, claim, claims_correct}
use mup.Topology.Checks.{
  Checks, HasAddress, is_ok-bind, bind-claims, bind-append, check_all-append, only_fine_address,
  then_claims_address, if_set, claims_if_set, All-map, All-both, All-append, error_of-none,
  is_empty-false, all_empty, guards_pass, fine_after, check_all-claims, check_all-fine,
}

module _ {V : Type 0} where
  abbrev pub endpoint_of_mongod : MongodNode V → Endpoint
  endpoint_of_mongod node = (node.host, node.port)

  abbrev pub endpoint_of_mongos : MongosNode V → Endpoint
  endpoint_of_mongos node = (node.host, node.port)

  abbrev pub endpoint_of_config : ConfigNode V → Endpoint
  endpoint_of_config node = (node.host, node.port)

  abbrev pub endpoints_of : Topology V → List Endpoint
  endpoints_of t =
      map endpoint_of_mongod t.mongod_nodes
      ++ (map endpoint_of_mongos t.mongos_nodes ++ map endpoint_of_config t.config_nodes)

  -- What a topology must satisfy.
  pub record IsValid (t : Topology V) : Type 0 where
    pub some_node : endpoints_of t ≢ []
    pub has_user : t.global.user ≢ []
    pub has_deploy_dir : t.global.deploy_dir ≢ []
    pub addresses : All (HasAddress (is_local_deployment t)) (endpoints_of t)
    pub replica_sets : All (λ (node : ConfigNode V). node.replica_set ≢ []) t.config_nodes
    pub no_conflict : Distinct (endpoints_of t)

  check_mongod-Checks :
      (is_local : Bool)
      → Checks
          (λ (node : MongodNode V). HasAddress is_local (endpoint_of_mongod node))
          endpoint_of_mongod
          (check_mongod is_local)
  unfolding check_mongod claim
  check_mongod-Checks is_local = record {
    only_fine = λ x seen h. (only_fine_address is_local x.host x.port _ _ _ h).0;
    then_claims = λ x seen h. then_claims_address is_local x.host x.port _ _ _ h;
  }

  check_mongos-Checks :
      (is_local : Bool)
      → Checks
          (λ (node : MongosNode V). HasAddress is_local (endpoint_of_mongos node))
          endpoint_of_mongos
          (check_mongos is_local)
  unfolding check_mongos claim
  check_mongos-Checks is_local = record {
    only_fine = λ x seen h. (only_fine_address is_local x.host x.port _ _ _ h).0;
    then_claims = λ x seen h. then_claims_address is_local x.host x.port _ _ _ h;
  }

  check_config-Checks :
      (is_local : Bool)
      → Checks
          (λ (node : ConfigNode V).
            HasAddress is_local (endpoint_of_config node) × (node.replica_set ≢ []))
          endpoint_of_config
          (check_config is_local)
  unfolding check_config claim
  check_config-Checks is_local = record {
    only_fine = λ x seen h.
        let parts = only_fine_address is_local x.host x.port _ _ _ h in
        (parts.0, if_set x.replica_set _ _ parts.1);
    then_claims = λ x seen h.
        then_claims_address is_local x.host x.port _ _ _ h.0 ∙ claims_if_set x.replica_set _ _ h.1;
  }

  -- The three loops are one: the claims of all the nodes.
  check_nodes-claims :
      (t : Topology V)
      → All (λ node. HasAddress (is_local_deployment t) (endpoint_of_mongod node)) t.mongod_nodes
      → All (λ node. HasAddress (is_local_deployment t) (endpoint_of_mongos node)) t.mongos_nodes
      → All
          (λ node.
            HasAddress (is_local_deployment t) (endpoint_of_config node) × (node.replica_set ≢ []))
          t.config_nodes
      → check_nodes t ≡ check_all claim (endpoints_of t) []
  unfolding check_nodes
  check_nodes-claims t m s c =
      let l = is_local_deployment t in
      let ds = map endpoint_of_mongod t.mongod_nodes in
      let es = map endpoint_of_mongos t.mongos_nodes in
      let fs = map endpoint_of_config t.config_nodes in
      ap
        (λ x.
          x
          >>= check_all (check_mongos l) t.mongos_nodes
          >>= check_all (check_config l) t.config_nodes)
        (check_all-claims (check_mongod-Checks l) t.mongod_nodes [] m)
      ∙ ap (λ x. x >>= check_all (check_config l) t.config_nodes)
          (bind-claims (check_all claim ds [])
            (λ seen. check_all-claims (check_mongos-Checks l) t.mongos_nodes seen s))
      ∙ bind-claims (check_all claim ds [] >>= check_all claim es)
          (λ seen. check_all-claims (check_config-Checks l) t.config_nodes seen c)
      ∙ sym (
          check_all-append ds (es ++ fs) []
          ∙ bind-append (check_all claim ds []) es fs (λ seen. check_all-append es fs seen))

  check_nodes-fine :
      (t : Topology V)
      → is_ok (check_nodes t) ≡ true
      → All (λ node. HasAddress (is_local_deployment t) (endpoint_of_mongod node)) t.mongod_nodes
        × All (λ node. HasAddress (is_local_deployment t) (endpoint_of_mongos node)) t.mongos_nodes
        × All
            (λ node.
              HasAddress (is_local_deployment t) (endpoint_of_config node)
              × (node.replica_set ≢ []))
            t.config_nodes
  unfolding check_nodes
  check_nodes-fine t h =
      let l = is_local_deployment t in
      let after_mongod = check_all (check_mongod l) t.mongod_nodes [] in
      let after_mongos = after_mongod >>= check_all (check_mongos l) t.mongos_nodes in
      let second = is_ok-bind after_mongos (check_all (check_config l) t.config_nodes) h in
      let first = is_ok-bind after_mongod (check_all (check_mongos l) t.mongos_nodes) second in
      (
        check_all-fine (check_mongod-Checks l) t.mongod_nodes [] first,
        fine_after (check_mongos-Checks l) after_mongod t.mongos_nodes second,
        fine_after (check_config-Checks l) after_mongos t.config_nodes h,
      )

  -- The addresses, the replica sets and the ports are all that the loops check.
  check_nodes_correct :
      (t : Topology V)
      → (is_ok (check_nodes t) ≡ true) ↔ (
          All (HasAddress (is_local_deployment t)) (endpoints_of t)
          × All (λ (node : ConfigNode V). node.replica_set ≢ []) t.config_nodes
          × Distinct (endpoints_of t))
  check_nodes_correct t =
      let A = HasAddress (is_local_deployment t) in
      let R = λ (node : ConfigNode V). node.replica_set ≢ [] in
      let ds = map endpoint_of_mongod t.mongod_nodes in
      let es = map endpoint_of_mongos t.mongos_nodes in
      let fs = map endpoint_of_config t.config_nodes in
      (
        (λ h.
            let fine = check_nodes-fine t h in
            let both = (All-both (λ node. A (endpoint_of_config node)) R t.config_nodes).0 fine.2 in
            (
              (All-append A ds (es ++ fs)).1 (
                (All-map A endpoint_of_mongod t.mongod_nodes).0 fine.0,
                (All-append A es fs).1 (
                  (All-map A endpoint_of_mongos t.mongos_nodes).0 fine.1,
                  (All-map A endpoint_of_config t.config_nodes).0 both.0,
                ),
              ),
              both.1,
              (claims_correct (endpoints_of t)).0
                  (rw (check_nodes-claims t fine.0 fine.1 fine.2) at h),
            )),
        (λ h.
            let two = (All-append A ds (es ++ fs)).0 h.0 in
            let three = (All-append A es fs).0 two.1 in
            rw
              (check_nodes-claims t ((All-map A endpoint_of_mongod t.mongod_nodes).1 two.0)
                ((All-map A endpoint_of_mongos t.mongos_nodes).1 three.0)
                ((All-both (λ node. A (endpoint_of_config node)) R t.config_nodes).1
                  ((All-map A endpoint_of_config t.config_nodes).1 three.1, h.1)))
              ((claims_correct (endpoints_of t)).1 h.2)),
      )

  check_nodes-global :
      (t : Topology V) (g : GlobalConfig V) → check_nodes (record t { global = g }) ≡ check_nodes t
  unfolding check_nodes is_local_deployment
  check_nodes-global t g = refl

  no_nodes :
      (t : Topology V)
      → ((length t.mongod_nodes == 0 && length t.mongos_nodes == 0 && length t.config_nodes == 0)
          ≡ false)
        ↔ (endpoints_of t ≢ [])
  no_nodes t = all_empty _ _ _ t.mongod_nodes t.mongos_nodes t.config_nodes

  -- `Validate` returns no error exactly for a valid topology: it has a node, a user and a
  -- deployment directory, each node has a host, and a port unless all hosts are local, each config
  -- server has a replica set, and no two nodes have the same host and the same positive port.
  pub validate_correct :
      (join : Text → Text → Text) (t : Topology V) → ((validate join t).0 ≡ none) ↔ IsValid t
  unfolding validate
  validate_correct join t =
      let nodes = check_nodes_correct t in
      let filled = check_nodes-global t (fill_global join t.global) in
      (
        (λ h.
            let parts = (guards_pass _ _ _ _ _ _ t _ _).0 h in
            let passed = nodes.0 ((error_of-none (check_nodes t)).0 (rw filled at parts.3)) in
            record {
              some_node = (no_nodes t).0 parts.0;
              has_user = (is_empty-false t.global.user).0 parts.1;
              has_deploy_dir = (is_empty-false t.global.deploy_dir).0 parts.2;
              addresses = passed.0;
              replica_sets = passed.1;
              no_conflict = passed.2;
            }),
        (λ v. (guards_pass _ _ _ _ _ _ t _ _).1 (
          (no_nodes t).1 v.some_node,
          (is_empty-false t.global.user).1 v.has_user,
          (is_empty-false t.global.deploy_dir).1 v.has_deploy_dir,
          rw filled (
              (error_of-none (check_nodes t)).1
                (nodes.1 (v.addresses, v.replica_sets, v.no_conflict))),
        )),
      )
