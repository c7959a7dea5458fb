-- ===== src/TickHouse/Hardware.antt =====
-- `auto_hardware` of control-api/app/tickhouse.py with its tables, and the suggested profile and shard count.
-- A table gives `none` for a key that it does not have. Milliseconds are whole numbers here.
use kdb_distributed_controlp.Prelude.{
  ℕ, ◌+◌, ◌-◌, ◌*◌, ◌/◌, String, Bool, true, false, ◌&&◌, ◌||◌, not, Option, none, some, List, [],
  ◌∷◌, if◌then◌else◌, str_eq, ltb, leb, max, min, ◌==◌, Result, ok, err,
}
use kdb_distributed_controlp.Topology.{max_shards}
use kdb_distributed_controlp.TickHouse.Spec.{
  HardwareSpec, SpecError, unknown_profile, unknown_cloud, unknown_component, elem,
}

abbrev pub clouds : List String
clouds = "aws" ∷ "azure" ∷ "gcp" ∷ "onprem" ∷ []

abbrev pub os_types : List String
os_types = "ubuntu-22.04" ∷ "ubuntu-24.04" ∷ "rhel-9" ∷ "rocky-9" ∷ "amazonlinux-2023" ∷ []

abbrev pub profiles : List String
profiles = "high-throughput" ∷ "low-latency" ∷ "balanced" ∷ []

abbrev pub required_components : List String
required_components = "tickerplant" ∷ "rdb" ∷ "hdb" ∷ "gateway" ∷ []

-- the seven instance types of a row of `_INSTANCE`, in its order
pub record InstanceRow : Type 0 where
  pub tickerplant : String
  pub logger : String
  pub rdb : String
  pub idb : String
  pub hdb : String
  pub gateway : String
  pub feedhandler : String

abbrev instances : String → String → String → String → String → String → String → Option InstanceRow
instances t l r i h g f = some (record {
  tickerplant = t;
  logger = l;
  rdb = r;
  idb = i;
  hdb = h;
  gateway = g;
  feedhandler = f;
})

-- `_INSTANCE`, by the profile (is it low-latency?) and the cloud
unfoldable pub instance_row : Bool → String → Option InstanceRow
instance_row false cloud =
    if str_eq cloud "aws"
    then instances "m7i.2xlarge" "i4i.2xlarge" "r7i.4xlarge" "r7i.2xlarge" "i4i.4xlarge"
        "c7i.2xlarge" "c7i.2xlarge"
    else if str_eq cloud "azure"
    then instances "Standard_E8s_v5" "Standard_L8s_v3" "Standard_E16s_v5" "Standard_E8s_v5"
        "Standard_L16s_v3" "Standard_F8s_v2" "Standard_F8s_v2"
    else if str_eq cloud "gcp"
    then instances "n2-highmem-8" "n2-standard-8" "n2-highmem-16" "n2-highmem-8" "n2-standard-16"
        "c3-highcpu-8" "c3-highcpu-8"
    else none
instance_row true cloud =
    if str_eq cloud "aws"
    then instances "c7i.2xlarge" "i4i.2xlarge" "r7i.2xlarge" "r7i.2xlarge" "i4i.2xlarge"
        "c7i.2xlarge" "c7gn.2xlarge"
    else if str_eq cloud "azure"
    then instances "Standard_F8s_v2" "Standard_L8s_v3" "Standard_E8s_v5" "Standard_E8s_v5"
        "Standard_L8s_v3" "Standard_F8s_v2" "Standard_F8s_v2"
    else if str_eq cloud "gcp"
    then instances "c3-highcpu-8" "n2-standard-8" "n2-highmem-8" "n2-highmem-8" "n2-standard-8"
        "c3-highcpu-8" "c3-highcpu-8"
    else none

-- `_INSTANCE.get(key, {}).get(component, "")`
unfoldable pub instance_of : Option InstanceRow → String → String
instance_of none component = ""
instance_of (some r) component =
    if str_eq component "tickerplant"
    then r.tickerplant
    else if str_eq component "logger"
    then r.logger
    else if str_eq component "rdb"
    then r.rdb
    else if str_eq component "idb"
    then r.idb
    else if str_eq component "hdb"
    then r.hdb
    else if str_eq component "gateway"
    then r.gateway
    else if str_eq component "feedhandler"
    then r.feedhandler
    else ""

-- `_SIZING`: processors, memory, disk and the disk's tier
unfoldable pub sizing : String → Option (ℕ × ℕ × ℕ × String)
sizing component =
    if str_eq component "feedhandler"
    then some (8, 16, 100, "ssd")
    else if str_eq component "logger"
    then some (8, 32, 500, "nvme")
    else if str_eq component "tickerplant"
    then some (8, 32, 200, "nvme")
    else if str_eq component "rdb"
    then some (16, 128, 200, "ssd")
    else if str_eq component "idb"
    then some (8, 64, 500, "ssd")
    else if str_eq component "hdb"
    then some (8, 32, 2000, "nvme")
    else if str_eq component "gateway"
    then some (8, 16, 100, "ssd")
    else none

-- `_PROFILE_MULT`, the same for memory and disk
abbrev profile_mult : String → ℕ
profile_mult profile = if str_eq profile "high-throughput" then 2 else 1

-- `_PROFILE_TUNING`
unfoldable pub profile_tuning : String → List String
profile_tuning profile =
    if str_eq profile "high-throughput"
    then "batch-publish" ∷ "large-tcp-buffers" ∷ "numa-balanced" ∷ "transparent-hugepages" ∷ []
    else if str_eq profile "low-latency"
    then "cpu-pinning" ∷ "core-isolation" ∷ "hugepages" ∷ "kernel-bypass-nic" ∷ "busy-poll"
      ∷ "disable-cstates" ∷ []
    else "large-tcp-buffers" ∷ []

abbrev nic_of : String → String → String
nic_of profile component =
    if str_eq profile "low-latency"
      && (str_eq component "feedhandler" || str_eq component "tickerplant")
    then "kernel-bypass"
    else if str_eq profile "high-throughput"
    then "high-bandwidth"
    else "standard"

unfoldable pub auto_hardware : String → String → String → String → Result SpecError HardwareSpec
unfolding instance_row instance_of sizing profile_tuning
auto_hardware profile cloud os component =
    if not (elem profile profiles)
    then err (unknown_profile profile)
    else if not (elem cloud clouds)
    then err (unknown_cloud cloud)
    else elim (sizing component) [
      | none ↦ err (unknown_component component)
      | some (vcpus, mem, disk, tier) ↦ ok (record {
        cloud = cloud;
        os = os;
        instance_type =
            if str_eq cloud "onprem"
            then ""
            else instance_of (instance_row (str_eq profile "low-latency") cloud) component;
        vcpus = vcpus;
        memory_gb = mem * profile_mult profile;
        disk_gb = disk * profile_mult profile;
        disk_tier = tier;
        nic = nic_of profile component;
        tuning = profile_tuning profile;
        cpuset = "";
        numa_node = "";
      })
    ]

-- `_pick_profile`
unfoldable pub pick_profile : Option ℕ → Option ℕ → String
pick_profile (some target) peak = if leb target 250 then "low-latency" else elim peak [
  | none ↦ "balanced"
  | some rate ↦ if ltb 5000 rate then "high-throughput" else "balanced"
]
pick_profile none (some rate) = if ltb 5000 rate then "high-throughput" else "balanced"
pick_profile none none = "balanced"

-- `n = max(n, -(-x // size))`, if x is given and not 0
abbrev pub at_least : Option ℕ → ℕ → ℕ → ℕ
at_least none size n = n
at_least (some x) size n = if x == 0 then n else max n ((x + (size - 1)) / size)

-- `_suggest_shard_count`
unfoldable pub suggest_shard_count : Option ℕ → Option ℕ → ℕ
suggest_shard_count peak symbols =
    max 1 (min max_shards (at_least peak 2000 (at_least symbols 500 2)))
