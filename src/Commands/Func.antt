-- ===== src/Commands/Func.antt =====
-- src/command.c: the handlers of the commands, by name.
pub data Func : Type 0 where
  cmd_display_layout_r cmd_display_logo cmd_display_theme cmd_lfs_copy cmd_lfs_del : Func
  cmd_lfs_dir cmd_lfs_format cmd_lfs_ren cmd_wifi_auth_mode cmd_wifi_country : Func
  cmd_wifi_gateway cmd_wifi_hostname cmd_wifi_ip cmd_wifi_mac cmd_wifi_netmask : Func
  cmd_wifi_dns cmd_wifi_ntp_client cmd_wifi_ntp cmd_wifi_mode cmd_wifi_password : Func
  cmd_wifi_rejoin cmd_wifi_ssid cmd_wifi_stats cmd_wifi_status cmd_wifi_info : Func
  cmd_wifi_syslog_client cmd_wifi_syslog cmd_http_mask_sensor cmd_http_mask_vsensor : Func
  cmd_http_mask_fan cmd_http_mask_mbfan cmd_http_port cmd_http_tlsport cmd_http_server : Func
  cmd_mqtt_mask_temp cmd_mqtt_mask_vtemp cmd_mqtt_mask_vhumidity cmd_mqtt_mask_vpressure : Func
  cmd_mqtt_mask_fan_rpm cmd_mqtt_mask_fan_duty cmd_mqtt_mask_mbfan_rpm : Func
  cmd_mqtt_mask_mbfan_duty cmd_mqtt_status_interval cmd_mqtt_temp_interval : Func
  cmd_mqtt_vsensor_interval cmd_mqtt_rpm_interval cmd_mqtt_duty_interval : Func
  cmd_mqtt_status_topic cmd_mqtt_cmd_topic cmd_mqtt_resp_topic cmd_mqtt_temp_topic : Func
  cmd_mqtt_vtemp_topic cmd_mqtt_vhumidity_topic cmd_mqtt_vpressure_topic : Func
  cmd_mqtt_fan_rpm_topic cmd_mqtt_fan_duty_topic cmd_mqtt_mbfan_rpm_topic : Func
  cmd_mqtt_mbfan_duty_topic cmd_mqtt_ha_discovery cmd_mqtt_server cmd_mqtt_port : Func
  cmd_mqtt_user cmd_mqtt_pass cmd_mqtt_allow_scpi cmd_mqtt_tls cmd_snmp_auth_traps : Func
  cmd_snmp_community_trap cmd_snmp_trap_dst cmd_snmp_agent cmd_snmp_community : Func
  cmd_snmp_contact cmd_snmp_location cmd_snmp_community_write cmd_ssh_pkey_create : Func
  cmd_ssh_pkey_del cmd_ssh_pkey cmd_ssh_pubkey_add cmd_ssh_pubkey_del cmd_ssh_pubkey : Func
  cmd_ssh_acls cmd_ssh_auth cmd_ssh_port cmd_ssh_server cmd_ssh_pass cmd_ssh_user : Func
  cmd_telnet_acls cmd_telnet_auth cmd_telnet_port cmd_telnet_rawmode cmd_telnet_server : Func
  cmd_telnet_pass cmd_telnet_user cmd_tls_cert cmd_tls_pkey cmd_i2c_scan cmd_i2c_speed : Func
  cmd_onewire_sensors cmd_board cmd_debug cmd_display_type cmd_echo cmd_err cmd_fans : Func
  cmd_flash cmd_i2c cmd_led cmd_lfs cmd_log_level cmd_mbfans cmd_memtest cmd_memory : Func
  cmd_name cmd_onewire cmd_psram cmd_sensors cmd_serial cmd_spi cmd_syslog_level : Func
  cmd_timezone cmd_time cmd_usb_boot cmd_uptime cmd_version cmd_adc_vref cmd_vsensors : Func
  cmd_wifi cmd_fan_tacho_hys cmd_fan_pwm_hys cmd_fan_filter cmd_fan_max_pwm : Func
  cmd_fan_min_pwm cmd_fan_name cmd_fan_pwm_coef cmd_fan_pwm_map cmd_fan_rpm_factor : Func
  cmd_fan_rpm_mode cmd_fan_source cmd_mbfan_filter cmd_mbfan_max_rpm cmd_mbfan_min_rpm : Func
  cmd_mbfan_name cmd_mbfan_rpm_coef cmd_mbfan_rpm_factor cmd_mbfan_rpm_mode : Func
  cmd_mbfan_rpm_map cmd_mbfan_source cmd_sensor_beta_coef cmd_sensor_filter : Func
  cmd_sensor_name cmd_sensor_temp_coef cmd_sensor_temp_map cmd_sensor_temp_nominal : Func
  cmd_sensor_temp_offset cmd_sensor_ther_nominal cmd_vsensor_filter cmd_vsensor_name : Func
  cmd_vsensor_source cmd_vsensor_temp_map cmd_vsensors_sources cmd_delete_config : Func
  cmd_print_config cmd_save_config cmd_upload_config cmd_fan_pwm cmd_fan_read cmd_fan_rpm : Func
  cmd_fan_tacho cmd_mbfan_pwm cmd_mbfan_read cmd_mbfan_rpm cmd_mbfan_tacho cmd_sensor_temp : Func
  cmd_vsensor_humidity cmd_vsensor_pressure cmd_vsensor_temp cmd_read cmd_vsensors_read : Func
  cmd_vsensor_write cmd_null cmd_zero cmd_idn cmd_one cmd_reset cmd_exit cmd_who : Func
