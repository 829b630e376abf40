-- ===== src/Cli/Clients.antt =====
-- internal/cli/clients.go: the connection to the cluster.
use kluster_one.Prelude.{Option, none, some, Result, ok, err, Error, wrap, codes}
use kluster_one.Kube.{Kube}
use kluster_one.Cli.Plugin.{Plugin, ConfigSource, kubeconfig, in_cluster}

module _ (K : Kube) (P : Plugin K) where
  open K use {World}
  open P use {client_config, in_cluster_config, kube_for_config, dynamic_for_config}

  -- The error that is reported is the kubeconfig's.
  unfoldable pub load_config : World → Result ConfigSource × World
  load_config w =
      let (e, w₁) = client_config w in
      let (e', w₂) = in_cluster_config w₁ in
      elim e [
        | none ↦ (ok kubeconfig, w₁)
        | some e ↦ elim e' [
          | none ↦ (ok in_cluster, w₂)
          | some _ ↦ (err (wrap (codes "load kubeconfig") e), w₂)
        ]
      ]

  unfoldable pub new_clients : World → Option Error × World
  unfolding load_config
  new_clients w =
      let (r, w₁) = load_config w in
      elim r [
        | err e ↦ (some e, w₁)
        | ok cfg ↦
            let (e, w₂) = kube_for_config cfg w₁ in
            let (e', w₃) = dynamic_for_config cfg w₂ in
            elim e [
              | some e ↦ (some (wrap (codes "build kube client") e), w₂)
              | none ↦ elim e' [
                | some e ↦ (some (wrap (codes "build dynamic client") e), w₃)
                | none ↦ (none, w₃)
              ]
            ]
      ]
