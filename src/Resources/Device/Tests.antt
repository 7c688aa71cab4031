-- ===== src/Resources/Device/Tests.antt =====
-- Runs of `device_read` at fixed inputs, and the instance of its theorem.
use agent_resources.Prelude.{none, [], replicate}
use agent_resources.Resources.Processes.Collect.{no_items}
use agent_resources.Resources.Device.{Device}

abbrev device : Device
device = record { os_version = replicate 256 0; uptime = []; processes = no_items 0 0; port = none }
