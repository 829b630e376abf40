-- ===== src/Cli/Plugin.antt =====
-- What the commands of the plugin call outside the repository: the terminal, files, the encoding/base64
-- and flag packages, and the dynamic client's operations on NodeMaintenance resources.
use kluster_one.Prelude.{ℕ, Bool, List, Option, Bytes, Error, Result}
use kluster_one.Kube.{Kube}
use kluster_one.Api.{NodeMaintenance}

-- The JSON merge patches that the plugin sends (RFC 7396). A field that is `none` is left out of the
-- patch; an annotation with `none` is a JSON null.
pub record MergePatch : Type 0 where
  pub annotations : List (Bytes × Option Bytes)
  pub paused : Option Bool
  pub inline : Option Bytes

-- `os.FileInfo`
pub record FileInfo : Type 0 where
  pub is_dir : Bool
  pub perm : ℕ

-- Where the configuration of the connection comes from: the kubeconfig, or the pod that the plugin runs in.
pub data ConfigSource : Type 0 where
  kubeconfig in_cluster : ConfigSource

-- The World is that of the API server.
pub record Plugin (K : Kube) : Type 1 where
  pub print : Bytes → K.World → K.World  -- standard output
  pub warn : Bytes → K.World → K.World  -- standard error
  pub usage : Bytes → K.World → K.World  -- `fs.Usage` of a subcommand's flag set
  pub stat : Bytes → K.World → Result FileInfo × K.World
  pub read_file : Bytes → K.World → Result Bytes × K.World
  pub write_file : Bytes → Bytes → ℕ → K.World → Option Error × K.World  -- the last: `perm`
  pub show_octal : ℕ → Bytes  -- `%04o` of package fmt
  pub show_hex : ℕ → Bytes  -- `%x`
  pub pad : ℕ → Bytes → Bytes  -- `%-*s`
  pub show_time : ℕ → Bytes  -- a `metav1.Time` in JSON
  -- Prints a table, through text/tabwriter.
  pub print_table : Bytes → K.World → Option Error × K.World
  pub encode_hex : Bytes → Bytes
  pub encode_base64 : Bytes → Bytes
  pub decode_base64 : Bytes → Result Bytes
  pub random_bytes : ℕ → K.World → Result Bytes × K.World  -- crypto/rand
  -- The connection, by package clientcmd and by package rest, and the clients.
  pub client_config : K.World → Option Error × K.World
  pub in_cluster_config : K.World → Option Error × K.World
  pub kube_for_config : ConfigSource → K.World → Option Error × K.World
  pub dynamic_for_config : ConfigSource → K.World → Option Error × K.World
  -- Documents in YAML and in JSON, and the dynamic client's object as JSON gives it.
  pub Text : Type 0
  pub marshal_yaml : NodeMaintenance → Result Text
  pub yaml_to_json : Text → Result Text
  pub unmarshal_json : Text → Result NodeMaintenance
  pub write_text : Text → K.World → Option Error × K.World  -- to standard output
  pub create_nm : NodeMaintenance → K.World → Option Error × K.World
  -- Replaces the object that was read, whose resource version goes with the request, by the second.
  pub update_nm : NodeMaintenance → NodeMaintenance → K.World → Option Error × K.World
  -- What package encoding/json makes of a string: it replaces the bytes that are not valid UTF-8. So it does
  -- with the keys and values of a map.
  pub json_text : Bytes → Bytes
  pub json_map : List (Bytes × Bytes) → List (Bytes × Bytes)
  pub patch_nm : Bytes → MergePatch → K.World → Option Error × K.World
  pub delete_nm : Bytes → K.World → Option Error × K.World
  -- Opens a container's log: namespace, pod, container, whether to follow; then copies it to the terminal,
  -- which gives `none` if the stream that was opened never ends.
  pub open_log : Bytes → Bytes → Bytes → Bool → K.World → Option Error × K.World
  pub copy_log : K.World → Option (Option Error × K.World)
