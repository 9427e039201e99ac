-- ===== src/Commands/Tables.antt =====
-- src/command.c: the tables of the commands, with all options of the build on.
use fanpico.Base.{some, none}
use fanpico.Base.Text.{codes}
use fanpico.Commands.Func.{
  cmd_display_layout_r, cmd_display_logo, cmd_display_theme, cmd_lfs_copy, cmd_lfs_del, cmd_lfs_dir,
  cmd_lfs_format, cmd_lfs_ren, cmd_i2c_scan, cmd_i2c_speed, cmd_onewire_sensors, cmd_board,
  cmd_debug, cmd_display_type, cmd_echo, cmd_err, cmd_fans, cmd_flash, cmd_i2c, cmd_led, cmd_lfs,
  cmd_log_level, cmd_mbfans, cmd_memtest, cmd_memory, cmd_name, cmd_onewire, cmd_psram, cmd_sensors,
  cmd_serial, cmd_spi, cmd_syslog_level, cmd_timezone, cmd_time, cmd_usb_boot, cmd_uptime,
  cmd_version, cmd_adc_vref, cmd_vsensors, cmd_wifi, cmd_fan_tacho_hys, cmd_fan_pwm_hys,
  cmd_fan_filter, cmd_fan_max_pwm, cmd_fan_min_pwm, cmd_fan_name, cmd_fan_pwm_coef, cmd_fan_pwm_map,
  cmd_fan_rpm_factor, cmd_fan_rpm_mode, cmd_fan_source, cmd_mbfan_filter, cmd_mbfan_max_rpm,
  cmd_mbfan_min_rpm, cmd_mbfan_name, cmd_mbfan_rpm_coef, cmd_mbfan_rpm_factor, cmd_mbfan_rpm_mode,
  cmd_mbfan_rpm_map, cmd_mbfan_source, cmd_sensor_beta_coef, cmd_sensor_filter, cmd_sensor_name,
  cmd_sensor_temp_coef, cmd_sensor_temp_map, cmd_sensor_temp_nominal, cmd_sensor_temp_offset,
  cmd_sensor_ther_nominal, cmd_vsensor_filter, cmd_vsensor_name, cmd_vsensor_source,
  cmd_vsensor_temp_map, cmd_vsensors_sources, cmd_delete_config, cmd_print_config, cmd_save_config,
  cmd_upload_config, cmd_fan_pwm, cmd_fan_read, cmd_fan_rpm, cmd_fan_tacho, cmd_mbfan_pwm,
  cmd_mbfan_read, cmd_mbfan_rpm, cmd_mbfan_tacho, cmd_sensor_temp, cmd_vsensor_humidity,
  cmd_vsensor_pressure, cmd_vsensor_temp, cmd_read, cmd_vsensors_read, cmd_vsensor_write, cmd_null,
  cmd_zero, cmd_idn, cmd_one, cmd_reset, cmd_exit, cmd_who,
}
use fanpico.Commands.Table.{CmdTable, row, end_table, ◌⨾◌}
use fanpico.Commands.NetworkTables.{
  wifi_commands, http_commands, mqtt_commands, snmp_commands, ssh_commands, telnet_commands,
  tls_commands,
}

abbrev pub display_commands : CmdTable
display_commands =
    row (codes "LAYOUTR") 7 end_table (some cmd_display_layout_r)
    ⨾ row (codes "LOGO") 4 end_table (some cmd_display_logo)
    ⨾ row (codes "THEMe") 4 end_table (some cmd_display_theme)
    ⨾ end_table

abbrev pub lfs_commands : CmdTable
lfs_commands =
    row (codes "COPY") 4 end_table (some cmd_lfs_copy)
    ⨾ row (codes "DELete") 3 end_table (some cmd_lfs_del)
    ⨾ row (codes "DIRectory") 3 end_table (some cmd_lfs_dir)
    ⨾ row (codes "FORMAT") 6 end_table (some cmd_lfs_format)
    ⨾ row (codes "REName") 3 end_table (some cmd_lfs_ren)
    ⨾ end_table

abbrev pub i2c_commands : CmdTable
i2c_commands =
    row (codes "SCAN") 4 end_table (some cmd_i2c_scan)
    ⨾ row (codes "SPEED") 5 end_table (some cmd_i2c_speed)
    ⨾ end_table

abbrev pub onewire_commands : CmdTable
onewire_commands = row (codes "SENsors") 3 end_table (some cmd_onewire_sensors) ⨾ end_table

abbrev pub system_commands : CmdTable
system_commands =
    row (codes "BOARD") 5 end_table (some cmd_board)
    ⨾ row (codes "DEBUG") 5 end_table (some cmd_debug)
    ⨾ row (codes "DISPlay") 4 display_commands (some cmd_display_type)
    ⨾ row (codes "ECHO") 4 end_table (some cmd_echo)
    ⨾ row (codes "ERRor") 3 end_table (some cmd_err)
    ⨾ row (codes "FANS") 4 end_table (some cmd_fans)
    ⨾ row (codes "FLASH") 5 end_table (some cmd_flash)
    ⨾ row (codes "I2C") 3 i2c_commands (some cmd_i2c)
    ⨾ row (codes "LED") 3 end_table (some cmd_led)
    ⨾ row (codes "LFS") 3 lfs_commands (some cmd_lfs)
    ⨾ row (codes "LOG") 3 end_table (some cmd_log_level)
    ⨾ row (codes "MBFANS") 6 end_table (some cmd_mbfans)
    ⨾ row (codes "MEMTEST") 7 end_table (some cmd_memtest)
    ⨾ row (codes "MEMory") 3 end_table (some cmd_memory)
    ⨾ row (codes "NAME") 4 end_table (some cmd_name)
    ⨾ row (codes "ONEWIRE") 7 onewire_commands (some cmd_onewire)
    ⨾ row (codes "PSRAM") 5 end_table (some cmd_psram)
    ⨾ row (codes "SENSORS") 7 end_table (some cmd_sensors)
    ⨾ row (codes "SERIAL") 6 end_table (some cmd_serial)
    ⨾ row (codes "SPI") 3 end_table (some cmd_spi)
    ⨾ row (codes "SYSLOG") 6 end_table (some cmd_syslog_level)
    ⨾ row (codes "TIMEZONE") 8 end_table (some cmd_timezone)
    ⨾ row (codes "TIME") 4 end_table (some cmd_time)
    ⨾ row (codes "UPGRADE") 7 end_table (some cmd_usb_boot)
    ⨾ row (codes "UPTIme") 4 end_table (some cmd_uptime)
    ⨾ row (codes "VERsion") 3 end_table (some cmd_version)
    ⨾ row (codes "VREFadc") 4 end_table (some cmd_adc_vref)
    ⨾ row (codes "VSENSORS") 8 end_table (some cmd_vsensors)
    ⨾ row (codes "WIFI") 4 wifi_commands (some cmd_wifi)
    ⨾ row (codes "HTTP") 4 http_commands none
    ⨾ row (codes "MQTT") 4 mqtt_commands none
    ⨾ row (codes "SNMP") 4 snmp_commands none
    ⨾ row (codes "TELNET") 6 telnet_commands none
    ⨾ row (codes "SSH") 3 ssh_commands none
    ⨾ row (codes "TLS") 3 tls_commands none
    ⨾ end_table

abbrev pub fan_hyst_commands : CmdTable
fan_hyst_commands =
    row (codes "TACho") 3 end_table (some cmd_fan_tacho_hys)
    ⨾ row (codes "PWM") 3 end_table (some cmd_fan_pwm_hys)
    ⨾ end_table

abbrev pub fan_c_commands : CmdTable
fan_c_commands =
    row (codes "FILTER") 6 end_table (some cmd_fan_filter)
    ⨾ row (codes "MAXpwm") 3 end_table (some cmd_fan_max_pwm)
    ⨾ row (codes "MINpwm") 3 end_table (some cmd_fan_min_pwm)
    ⨾ row (codes "NAME") 4 end_table (some cmd_fan_name)
    ⨾ row (codes "PWMCoeff") 4 end_table (some cmd_fan_pwm_coef)
    ⨾ row (codes "PWMMap") 4 end_table (some cmd_fan_pwm_map)
    ⨾ row (codes "RPMFactor") 4 end_table (some cmd_fan_rpm_factor)
    ⨾ row (codes "RPMMOde") 5 end_table (some cmd_fan_rpm_mode)
    ⨾ row (codes "SOUrce") 3 end_table (some cmd_fan_source)
    ⨾ row (codes "HYSTeresis") 4 fan_hyst_commands none
    ⨾ end_table

abbrev pub mbfan_c_commands : CmdTable
mbfan_c_commands =
    row (codes "FILTER") 6 end_table (some cmd_mbfan_filter)
    ⨾ row (codes "MAXrpm") 3 end_table (some cmd_mbfan_max_rpm)
    ⨾ row (codes "MINrpm") 3 end_table (some cmd_mbfan_min_rpm)
    ⨾ row (codes "NAME") 4 end_table (some cmd_mbfan_name)
    ⨾ row (codes "RPMCoeff") 4 end_table (some cmd_mbfan_rpm_coef)
    ⨾ row (codes "RPMFactor") 4 end_table (some cmd_mbfan_rpm_factor)
    ⨾ row (codes "RPMMOde") 5 end_table (some cmd_mbfan_rpm_mode)
    ⨾ row (codes "RPMMap") 4 end_table (some cmd_mbfan_rpm_map)
    ⨾ row (codes "SOUrce") 3 end_table (some cmd_mbfan_source)
    ⨾ end_table

abbrev pub sensor_c_commands : CmdTable
sensor_c_commands =
    row (codes "BETAcoeff") 4 end_table (some cmd_sensor_beta_coef)
    ⨾ row (codes "FILTER") 6 end_table (some cmd_sensor_filter)
    ⨾ row (codes "NAME") 4 end_table (some cmd_sensor_name)
    ⨾ row (codes "TEMPCoeff") 5 end_table (some cmd_sensor_temp_coef)
    ⨾ row (codes "TEMPMap") 5 end_table (some cmd_sensor_temp_map)
    ⨾ row (codes "TEMPNominal") 5 end_table (some cmd_sensor_temp_nominal)
    ⨾ row (codes "TEMPOffset") 5 end_table (some cmd_sensor_temp_offset)
    ⨾ row (codes "THERmistor") 4 end_table (some cmd_sensor_ther_nominal)
    ⨾ end_table

abbrev pub vsensor_c_commands : CmdTable
vsensor_c_commands =
    row (codes "FILTER") 6 end_table (some cmd_vsensor_filter)
    ⨾ row (codes "NAME") 4 end_table (some cmd_vsensor_name)
    ⨾ row (codes "SOUrce") 3 end_table (some cmd_vsensor_source)
    ⨾ row (codes "TEMPMap") 5 end_table (some cmd_vsensor_temp_map)
    ⨾ end_table

abbrev pub vsensors_c_commands : CmdTable
vsensors_c_commands = row (codes "SOUrce") 3 end_table (some cmd_vsensors_sources) ⨾ end_table

abbrev pub config_commands : CmdTable
config_commands =
    row (codes "DELete") 3 end_table (some cmd_delete_config)
    ⨾ row (codes "FAN") 3 fan_c_commands none
    ⨾ row (codes "MBFAN") 5 mbfan_c_commands none
    ⨾ row (codes "Read") 1 end_table (some cmd_print_config)
    ⨾ row (codes "SAVe") 3 end_table (some cmd_save_config)
    ⨾ row (codes "SENSOR") 6 sensor_c_commands none
    ⨾ row (codes "UPLOAD") 6 end_table (some cmd_upload_config)
    ⨾ row (codes "VSENSORS") 8 vsensors_c_commands (some cmd_vsensors_sources)
    ⨾ row (codes "VSENSOR") 7 vsensor_c_commands none
    ⨾ end_table

abbrev pub fan_commands : CmdTable
fan_commands =
    row (codes "PWM") 3 end_table (some cmd_fan_pwm)
    ⨾ row (codes "Read") 1 end_table (some cmd_fan_read)
    ⨾ row (codes "RPM") 3 end_table (some cmd_fan_rpm)
    ⨾ row (codes "TACho") 3 end_table (some cmd_fan_tacho)
    ⨾ end_table

abbrev pub mbfan_commands : CmdTable
mbfan_commands =
    row (codes "PWM") 3 end_table (some cmd_mbfan_pwm)
    ⨾ row (codes "Read") 1 end_table (some cmd_mbfan_read)
    ⨾ row (codes "RPM") 3 end_table (some cmd_mbfan_rpm)
    ⨾ row (codes "TACho") 3 end_table (some cmd_mbfan_tacho)
    ⨾ end_table

abbrev pub sensor_commands : CmdTable
sensor_commands =
    row (codes "Read") 1 end_table (some cmd_sensor_temp)
    ⨾ row (codes "TEMP") 4 end_table (some cmd_sensor_temp)
    ⨾ end_table

abbrev pub vsensor_commands : CmdTable
vsensor_commands =
    row (codes "HUMidity") 3 end_table (some cmd_vsensor_humidity)
    ⨾ row (codes "PREssure") 3 end_table (some cmd_vsensor_pressure)
    ⨾ row (codes "Read") 1 end_table (some cmd_vsensor_temp)
    ⨾ row (codes "TEMP") 4 end_table (some cmd_vsensor_temp)
    ⨾ end_table

abbrev pub measure_commands : CmdTable
measure_commands =
    row (codes "FAN") 3 fan_commands (some cmd_fan_read)
    ⨾ row (codes "MBFAN") 5 mbfan_commands (some cmd_mbfan_read)
    ⨾ row (codes "Read") 1 end_table (some cmd_read)
    ⨾ row (codes "SENSOR") 6 sensor_commands (some cmd_sensor_temp)
    ⨾ row (codes "VSENSORS") 8 end_table (some cmd_vsensors_read)
    ⨾ row (codes "VSENSOR") 7 vsensor_commands (some cmd_vsensor_temp)
    ⨾ end_table

abbrev pub write_commands : CmdTable
write_commands = row (codes "VSENSOR") 7 end_table (some cmd_vsensor_write) ⨾ end_table

abbrev pub commands : CmdTable
commands =
    row (codes "*CLS") 4 end_table (some cmd_null)
    ⨾ row (codes "*ESE") 4 end_table (some cmd_null)
    ⨾ row (codes "*ESR") 4 end_table (some cmd_zero)
    ⨾ row (codes "*IDN") 4 end_table (some cmd_idn)
    ⨾ row (codes "*OPC") 4 end_table (some cmd_one)
    ⨾ row (codes "*RST") 4 end_table (some cmd_reset)
    ⨾ row (codes "*SRE") 4 end_table (some cmd_zero)
    ⨾ row (codes "*STB") 4 end_table (some cmd_zero)
    ⨾ row (codes "*TST") 4 end_table (some cmd_zero)
    ⨾ row (codes "*WAI") 4 end_table (some cmd_null)
    ⨾ row (codes "CONFigure") 4 config_commands (some cmd_print_config)
    ⨾ row (codes "EXIT") 4 end_table (some cmd_exit)
    ⨾ row (codes "MEAsure") 3 measure_commands none
    ⨾ row (codes "SYStem") 3 system_commands none
    ⨾ row (codes "Read") 1 end_table (some cmd_read)
    ⨾ row (codes "WHO") 3 end_table (some cmd_who)
    ⨾ row (codes "WRIte") 3 write_commands none
    ⨾ end_table
