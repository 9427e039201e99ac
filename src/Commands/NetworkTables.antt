-- ===== src/Commands/NetworkTables.antt =====
-- src/command.c: the tables of the commands of the network services.
use fanpico.Base.{some, none}
use fanpico.Base.Text.{codes}
use fanpico.Commands.Func.{
  cmd_wifi_auth_mode, cmd_wifi_country, cmd_wifi_gateway, cmd_wifi_hostname, cmd_wifi_ip,
  cmd_wifi_mac, cmd_wifi_netmask, cmd_wifi_dns, cmd_wifi_ntp_client, cmd_wifi_ntp, cmd_wifi_mode,
  cmd_wifi_password, cmd_wifi_rejoin, cmd_wifi_ssid, cmd_wifi_stats, cmd_wifi_status, cmd_wifi_info,
  cmd_wifi_syslog_client, cmd_wifi_syslog, cmd_http_mask_sensor, cmd_http_mask_vsensor,
  cmd_http_mask_fan, cmd_http_mask_mbfan, cmd_http_port, cmd_http_tlsport, cmd_http_server,
  cmd_mqtt_mask_temp, cmd_mqtt_mask_vtemp, cmd_mqtt_mask_vhumidity, cmd_mqtt_mask_vpressure,
  cmd_mqtt_mask_fan_rpm, cmd_mqtt_mask_fan_duty, cmd_mqtt_mask_mbfan_rpm, cmd_mqtt_mask_mbfan_duty,
  cmd_mqtt_status_interval, cmd_mqtt_temp_interval, cmd_mqtt_vsensor_interval,
  cmd_mqtt_rpm_interval, cmd_mqtt_duty_interval, cmd_mqtt_status_topic, cmd_mqtt_cmd_topic,
  cmd_mqtt_resp_topic, cmd_mqtt_temp_topic, cmd_mqtt_vtemp_topic, cmd_mqtt_vhumidity_topic,
  cmd_mqtt_vpressure_topic, cmd_mqtt_fan_rpm_topic, cmd_mqtt_fan_duty_topic,
  cmd_mqtt_mbfan_rpm_topic, cmd_mqtt_mbfan_duty_topic, cmd_mqtt_ha_discovery, cmd_mqtt_server,
  cmd_mqtt_port, cmd_mqtt_user, cmd_mqtt_pass, cmd_mqtt_allow_scpi, cmd_mqtt_tls,
  cmd_snmp_auth_traps, cmd_snmp_community_trap, cmd_snmp_trap_dst, cmd_snmp_agent,
  cmd_snmp_community, cmd_snmp_contact, cmd_snmp_location, cmd_snmp_community_write,
  cmd_ssh_pkey_create, cmd_ssh_pkey_del, cmd_ssh_pkey, cmd_ssh_pubkey_add, cmd_ssh_pubkey_del,
  cmd_ssh_pubkey, cmd_ssh_acls, cmd_ssh_auth, cmd_ssh_port, cmd_ssh_server, cmd_ssh_pass,
  cmd_ssh_user, cmd_telnet_acls, cmd_telnet_auth, cmd_telnet_port, cmd_telnet_rawmode,
  cmd_telnet_server, cmd_telnet_pass, cmd_telnet_user, cmd_tls_cert, cmd_tls_pkey,
}
use fanpico.Commands.Table.{CmdTable, row, end_table, ◌⨾◌}

abbrev pub wifi_commands : CmdTable
wifi_commands =
    row (codes "AUTHmode") 4 end_table (some cmd_wifi_auth_mode)
    ⨾ row (codes "COUntry") 3 end_table (some cmd_wifi_country)
    ⨾ row (codes "GATEway") 4 end_table (some cmd_wifi_gateway)
    ⨾ row (codes "HOSTname") 4 end_table (some cmd_wifi_hostname)
    ⨾ row (codes "IPaddress") 2 end_table (some cmd_wifi_ip)
    ⨾ row (codes "MAC") 3 end_table (some cmd_wifi_mac)
    ⨾ row (codes "NETMask") 4 end_table (some cmd_wifi_netmask)
    ⨾ row (codes "DNS") 3 end_table (some cmd_wifi_dns)
    ⨾ row (codes "NTPClient") 4 end_table (some cmd_wifi_ntp_client)
    ⨾ row (codes "NTP") 3 end_table (some cmd_wifi_ntp)
    ⨾ row (codes "MODE") 4 end_table (some cmd_wifi_mode)
    ⨾ row (codes "PASSword") 4 end_table (some cmd_wifi_password)
    ⨾ row (codes "REJOIN") 6 end_table (some cmd_wifi_rejoin)
    ⨾ row (codes "SSID") 4 end_table (some cmd_wifi_ssid)
    ⨾ row (codes "STATS") 5 end_table (some cmd_wifi_stats)
    ⨾ row (codes "STATus") 4 end_table (some cmd_wifi_status)
    ⨾ row (codes "INFO") 4 end_table (some cmd_wifi_info)
    ⨾ row (codes "SYSLOGClient") 7 end_table (some cmd_wifi_syslog_client)
    ⨾ row (codes "SYSLOG") 6 end_table (some cmd_wifi_syslog)
    ⨾ end_table

abbrev pub http_mask_commands : CmdTable
http_mask_commands =
    row (codes "SENSOR") 6 end_table (some cmd_http_mask_sensor)
    ⨾ row (codes "VSENSOR") 7 end_table (some cmd_http_mask_vsensor)
    ⨾ row (codes "FAN") 3 end_table (some cmd_http_mask_fan)
    ⨾ row (codes "MBFAN") 5 end_table (some cmd_http_mask_mbfan)
    ⨾ end_table

abbrev pub http_commands : CmdTable
http_commands =
    row (codes "MASK") 4 http_mask_commands none
    ⨾ row (codes "PORT") 4 end_table (some cmd_http_port)
    ⨾ row (codes "TLSPORT") 7 end_table (some cmd_http_tlsport)
    ⨾ row (codes "SERVer") 4 end_table (some cmd_http_server)
    ⨾ end_table

abbrev pub mqtt_mask_commands : CmdTable
mqtt_mask_commands =
    row (codes "TEMP") 4 end_table (some cmd_mqtt_mask_temp)
    ⨾ row (codes "VTEMP") 5 end_table (some cmd_mqtt_mask_vtemp)
    ⨾ row (codes "VHUMidity") 4 end_table (some cmd_mqtt_mask_vhumidity)
    ⨾ row (codes "VPREssure") 4 end_table (some cmd_mqtt_mask_vpressure)
    ⨾ row (codes "FANRPM") 6 end_table (some cmd_mqtt_mask_fan_rpm)
    ⨾ row (codes "FANPWM") 6 end_table (some cmd_mqtt_mask_fan_duty)
    ⨾ row (codes "MBFANRPM") 8 end_table (some cmd_mqtt_mask_mbfan_rpm)
    ⨾ row (codes "MBFANPWM") 8 end_table (some cmd_mqtt_mask_mbfan_duty)
    ⨾ end_table

abbrev pub mqtt_interval_commands : CmdTable
mqtt_interval_commands =
    row (codes "STATUS") 6 end_table (some cmd_mqtt_status_interval)
    ⨾ row (codes "TEMP") 4 end_table (some cmd_mqtt_temp_interval)
    ⨾ row (codes "VSENsor") 4 end_table (some cmd_mqtt_vsensor_interval)
    ⨾ row (codes "RPM") 3 end_table (some cmd_mqtt_rpm_interval)
    ⨾ row (codes "PWM") 3 end_table (some cmd_mqtt_duty_interval)
    ⨾ end_table

abbrev pub mqtt_topic_commands : CmdTable
mqtt_topic_commands =
    row (codes "STATus") 4 end_table (some cmd_mqtt_status_topic)
    ⨾ row (codes "COMMand") 4 end_table (some cmd_mqtt_cmd_topic)
    ⨾ row (codes "RESPonse") 4 end_table (some cmd_mqtt_resp_topic)
    ⨾ row (codes "TEMP") 4 end_table (some cmd_mqtt_temp_topic)
    ⨾ row (codes "VTEMP") 5 end_table (some cmd_mqtt_vtemp_topic)
    ⨾ row (codes "VHUMidity") 4 end_table (some cmd_mqtt_vhumidity_topic)
    ⨾ row (codes "VPREssure") 4 end_table (some cmd_mqtt_vpressure_topic)
    ⨾ row (codes "FANRPM") 6 end_table (some cmd_mqtt_fan_rpm_topic)
    ⨾ row (codes "FANPWM") 6 end_table (some cmd_mqtt_fan_duty_topic)
    ⨾ row (codes "MBFANRPM") 8 end_table (some cmd_mqtt_mbfan_rpm_topic)
    ⨾ row (codes "MBFANPWM") 8 end_table (some cmd_mqtt_mbfan_duty_topic)
    ⨾ end_table

abbrev pub mqtt_ha_commands : CmdTable
mqtt_ha_commands = row (codes "DISCovery") 4 end_table (some cmd_mqtt_ha_discovery) ⨾ end_table

abbrev pub mqtt_commands : CmdTable
mqtt_commands =
    row (codes "SERVer") 4 end_table (some cmd_mqtt_server)
    ⨾ row (codes "PORT") 4 end_table (some cmd_mqtt_port)
    ⨾ row (codes "USER") 4 end_table (some cmd_mqtt_user)
    ⨾ row (codes "PASSword") 4 end_table (some cmd_mqtt_pass)
    ⨾ row (codes "SCPI") 4 end_table (some cmd_mqtt_allow_scpi)
    ⨾ row (codes "TLS") 3 end_table (some cmd_mqtt_tls)
    ⨾ row (codes "HA") 2 mqtt_ha_commands none
    ⨾ row (codes "INTerval") 3 mqtt_interval_commands none
    ⨾ row (codes "MASK") 4 mqtt_mask_commands none
    ⨾ row (codes "TOPIC") 5 mqtt_topic_commands none
    ⨾ end_table

abbrev pub snmp_trap_commands : CmdTable
snmp_trap_commands =
    row (codes "AUTH") 4 end_table (some cmd_snmp_auth_traps)
    ⨾ row (codes "COMMunity") 4 end_table (some cmd_snmp_community_trap)
    ⨾ row (codes "DESTination") 4 end_table (some cmd_snmp_trap_dst)
    ⨾ end_table

abbrev pub snmp_commands : CmdTable
snmp_commands =
    row (codes "AGENT") 5 end_table (some cmd_snmp_agent)
    ⨾ row (codes "COMMunity") 4 end_table (some cmd_snmp_community)
    ⨾ row (codes "CONTact") 4 end_table (some cmd_snmp_contact)
    ⨾ row (codes "LOCAtion") 4 end_table (some cmd_snmp_location)
    ⨾ row (codes "TRAPs") 4 snmp_trap_commands none
    ⨾ row (codes "WRITecommunity") 4 end_table (some cmd_snmp_community_write)
    ⨾ end_table

abbrev pub ssh_pkey_commands : CmdTable
ssh_pkey_commands =
    row (codes "CREate") 3 end_table (some cmd_ssh_pkey_create)
    ⨾ row (codes "DELete") 3 end_table (some cmd_ssh_pkey_del)
    ⨾ row (codes "LIST") 4 end_table (some cmd_ssh_pkey)
    ⨾ end_table

abbrev pub ssh_pubkey_commands : CmdTable
ssh_pubkey_commands =
    row (codes "ADD") 3 end_table (some cmd_ssh_pubkey_add)
    ⨾ row (codes "DELete") 3 end_table (some cmd_ssh_pubkey_del)
    ⨾ row (codes "LIST") 4 end_table (some cmd_ssh_pubkey)
    ⨾ end_table

abbrev pub ssh_commands : CmdTable
ssh_commands =
    row (codes "ACLs") 3 end_table (some cmd_ssh_acls)
    ⨾ row (codes "AUTH") 4 end_table (some cmd_ssh_auth)
    ⨾ row (codes "PORT") 4 end_table (some cmd_ssh_port)
    ⨾ row (codes "SERVer") 4 end_table (some cmd_ssh_server)
    ⨾ row (codes "PASSword") 4 end_table (some cmd_ssh_pass)
    ⨾ row (codes "USER") 4 end_table (some cmd_ssh_user)
    ⨾ row (codes "KEY") 3 ssh_pkey_commands (some cmd_ssh_pkey)
    ⨾ row (codes "PUBKEY") 6 ssh_pubkey_commands (some cmd_ssh_pubkey)
    ⨾ end_table

abbrev pub telnet_commands : CmdTable
telnet_commands =
    row (codes "ACLs") 3 end_table (some cmd_telnet_acls)
    ⨾ row (codes "AUTH") 4 end_table (some cmd_telnet_auth)
    ⨾ row (codes "PORT") 4 end_table (some cmd_telnet_port)
    ⨾ row (codes "RAWmode") 3 end_table (some cmd_telnet_rawmode)
    ⨾ row (codes "SERVer") 4 end_table (some cmd_telnet_server)
    ⨾ row (codes "PASSword") 4 end_table (some cmd_telnet_pass)
    ⨾ row (codes "USER") 4 end_table (some cmd_telnet_user)
    ⨾ end_table

abbrev pub tls_commands : CmdTable
tls_commands =
    row (codes "CERT") 4 end_table (some cmd_tls_cert)
    ⨾ row (codes "PKEY") 4 end_table (some cmd_tls_pkey)
    ⨾ end_table
