-- ===== src/Sandbox/Spec.antt =====
-- app/sandbox/manager.py: what _start_container asks docker to run.
use agentis_backend.Prelude.{
  ℕ, String, Bool, true, false, Option, none, some, List, [], ◌∷◌, if◌then◌else◌,
}
use agentis_backend.PyText.{◌⧺◌, is_empty}
use agentis_backend.Config.{Settings}

-- docker.types.Mount of a tmpfs
pub record Mount : Type 0 where
  pub target : String
  pub tmpfs_size : String

-- The arguments of containers.run.
pub record ContainerSpec : Type 0 where
  pub image : String
  pub detach : Bool
  pub network : String
  pub name : String
  pub security_opt : List String
  pub read_only : Bool
  pub cap_drop : List String
  pub mounts : List Mount
  pub environment : Option (List (String × String))
  pub mem_limit : String
  pub nano_cpus : ℕ
  pub remove : Bool
  pub labels : List (String × String)

-- The variables by which programs in the container find the proxy, if there is one.
abbrev pub proxies : String → Option (List (String × String))
proxies url =
    if is_empty url
    then none
    else some (
        ("http_proxy", url)
        ∷ ("https_proxy", url)
        ∷ ("HTTP_PROXY", url)
        ∷ ("HTTPS_PROXY", url)
        ∷ [])

-- The container of a task; `task_id` is the text of its id.
unfoldable pub container_spec : Settings → (task_id : String) → ContainerSpec
container_spec cfg task_id = record {
  image = cfg.sandbox_image;
  detach = true;
  network = cfg.sandbox_network;
  name = "agentis-sandbox-" ⧺ task_id;
  security_opt = "no-new-privileges" ∷ [];
  read_only = true;
  cap_drop = "ALL" ∷ [];
  mounts = record { target = "/workspace"; tmpfs_size = "5368709120" } ∷ [];
  environment = proxies cfg.egress_proxy_url;
  mem_limit = "2g";
  nano_cpus = 2000000000;
  remove = false;
  labels = ("agentis.task_id", task_id) ∷ ("agentis.managed", "true") ∷ [];
}
