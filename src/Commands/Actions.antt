-- ===== src/Commands/Actions.antt =====
-- The scripts that look at a node, break it and bring it back (ha-test/hatest/commands.py).
use spr1n6_osscontest_server.Common.{Option, some, String, [], ◌∷◌, ◌<>◌, str}
use spr1n6_osscontest_server.Config.{Config}
use spr1n6_osscontest_server.Commands.{
  fill, targets, imds_base, imds_token, patroni_drop_in_dir, patroni_drop_in,
}

abbrev pub node_facts_template : String
node_facts_template =
    "\n" <> "echo \"ts=$(date +%s.%N)\"\n"
    <> "if ip -4 -o addr show | grep -qF ' {{VIP}}/'; then echo 'vip=1'; else echo 'vip=0'; fi\n"
    <> "echo \"patroni_service=$(systemctl is-active patroni)\"\n"
    <> "echo \"patroni_enabled=$(systemctl is-enabled patroni 2>/dev/null)\"\n"
    <> "echo \"openproxy_service=$(systemctl is-active openproxy)\"\n"
    <> "if [ -r /sys/class/watchdog/watchdog0/state ]; then\n"
    <> "  echo \"watchdog=$(cat /sys/class/watchdog/watchdog0/state)\"\n" <> "else\n"
    <> "  echo 'watchdog=none'\n" <> "fi\n"
    <> "echo \"boot_id=$(cat /proc/sys/kernel/random/boot_id)\"\n"

unfoldable pub node_facts_script : Config → Option String
unfolding fill
node_facts_script c = fill node_facts_template (("VIP", c.vip) ∷ [])

abbrev pub patroni_scan_template : String
patroni_scan_template =
    "\n" <> "for target in {{TARGETS}}; do\n" <> "  (\n" <> "    at=$(date +%s.%N)\n"
    <> "    body=$(curl -s -m 1 \"http://${target#*=}:{{PORT}}/patroni\" | tr -d '\\t\\n\\r')\n"
    <> "    printf '%s\\t%s\\t%s\\n' \"${target%%=*}\" \"$at\" \"${body:-ERR}\"\n" <> "  ) &\n"
    <> "done\n" <> "wait\n"

unfoldable pub patroni_scan_script : Config → Option String
unfolding fill
patroni_scan_script c =
    fill patroni_scan_template (("TARGETS", targets c) ∷ ("PORT", str c.patroni_port) ∷ [])

abbrev pub aws_vip_held_template : String
aws_vip_held_template =
    "\n" <> "base={{BASE}}\n" <> "token=$({{TOKEN}})\n"
    <> "if [ -z \"$token\" ]; then echo 'aws_vip=error'; exit 0; fi\n" <> "held=0\n"
    <> "for mac in $(curl -s -m 2 -H \"X-aws-ec2-metadata-token: $token\" \"$base/\"); do\n"
    <> "  if curl -s -m 2 -H \"X-aws-ec2-metadata-token: $token\" \"$base/${mac%/}/local-ipv4s\" | grep -qx '{{VIP}}'; then held=1; fi\n"
    <> "done\n" <> "echo \"aws_vip=$held\"\n"

unfoldable pub aws_vip_held_script : Config → Option String
unfolding fill
aws_vip_held_script c =
    fill aws_vip_held_template (("BASE", imds_base) ∷ ("TOKEN", imds_token) ∷ ("VIP", c.vip) ∷ [])

abbrev pub boot_id_script : Option String
boot_id_script = some ("cat /proc/sys/kernel/random/boot_id\n")

abbrev pub ssh_ok_script : Option String
ssh_ok_script = some ("echo ok\n")

abbrev pub kill_db_stack_template : String
kill_db_stack_template =
    "\n" <> "set -e\n" <> "sudo mkdir -p {{DROP_IN_DIR}}\n"
    <> "printf '[Service]\\nRestart=no\\n' | sudo tee {{DROP_IN}} >/dev/null\n"
    <> "sudo systemctl daemon-reload\n" <> "sudo systemctl disable patroni 2>/dev/null\n"
    <> "echo \"boot_id=$(cat /proc/sys/kernel/random/boot_id)\"\n" <> "echo \"ts=$(date +%s.%N)\"\n"
    <> "sudo systemctl kill -s SIGKILL patroni\n"

unfoldable pub kill_db_stack_script : Option String
unfolding fill
kill_db_stack_script =
    fill kill_db_stack_template
      (("DROP_IN_DIR", patroni_drop_in_dir) ∷ ("DROP_IN", patroni_drop_in) ∷ [])

abbrev pub revive_db_stack_template : String
revive_db_stack_template =
    "\n" <> "set -e\n" <> "sudo rm -f {{DROP_IN}}\n" <> "sudo systemctl daemon-reload\n"
    <> "sudo systemctl enable patroni 2>/dev/null\n" <> "echo \"ts=$(date +%s.%N)\"\n"
    <> "sudo systemctl start patroni\n"

unfoldable pub revive_db_stack_script : Option String
unfolding fill
revive_db_stack_script = fill revive_db_stack_template (("DROP_IN", patroni_drop_in) ∷ [])

abbrev pub stop_service_template : String
stop_service_template =
    "\n" <> "set -e\n" <> "echo \"ts=$(date +%s.%N)\"\n" <> "sudo systemctl stop {{UNIT}}\n"

unfoldable pub stop_service_script : String → Option String
unfolding fill
stop_service_script unit = fill stop_service_template (("UNIT", unit) ∷ [])

abbrev pub start_service_template : String
start_service_template =
    "\n" <> "set -e\n" <> "echo \"ts=$(date +%s.%N)\"\n" <> "sudo systemctl start {{UNIT}}\n"

unfoldable pub start_service_script : String → Option String
unfolding fill
start_service_script unit = fill start_service_template (("UNIT", unit) ∷ [])

abbrev pub switchover_template : String
switchover_template =
    "\n" <> "echo \"ts=$(date +%s.%N)\"\n"
    <> "patronictl -c {{CONFIG}} switchover --leader {{LEADER}} --candidate {{CANDIDATE}} --force\n"

unfoldable pub switchover_script : Config → String → String → Option String
unfolding fill
switchover_script c leader_member candidate_member = fill switchover_template (
    ("CONFIG", c.patroni_config) ∷ ("LEADER", leader_member) ∷ ("CANDIDATE", candidate_member) ∷ [])

abbrev pub vip_held_template : String
vip_held_template =
    "\n"
    <> "if ip -4 -o addr show | grep -qF ' {{VIP}}/'; then echo 'vip=1'; else echo 'vip=0'; fi\n"

unfoldable pub vip_held_script : Config → Option String
unfolding fill
vip_held_script c = fill vip_held_template (("VIP", c.vip) ∷ [])
