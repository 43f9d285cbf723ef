-- ===== src/Tests/Plugins.antt =====
-- The theorem on the plugin's configuration, applied to a node with an address of five octal digits.
use embd_project.Prelude.{◌≡◌, ◌↔◌, false, [], none}
use embd_project.Plugin.{NodeConf, validate_conf}
use embd_project.Plugin.Addresses.{IsAccepted, validate_conf-IsAccepted}

abbrev far_node : NodeConf
far_node = record {
  id = "far";
  subscriptions = [];
  address = 0o15555;
  master = false;
  heartbeat_interval = 500;
  router_worker_count = 0;
}

validate_conf-IsAccepted_example : (validate_conf far_node ≡ none) ↔ IsAccepted far_node
validate_conf-IsAccepted_example = validate_conf-IsAccepted far_node
