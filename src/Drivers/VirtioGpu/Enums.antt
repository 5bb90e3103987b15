-- ===== src/Drivers/VirtioGpu/Enums.antt =====
-- The enumerations of bootloader/kernel/src/drivers/virtio_gpu.rs with their `repr(u32)` numbers.
use fomos.Common.{ℕ}

-- enum VirtioGpuCtrlType
pub data CtrlType : Type 0 where
  cmd_get_display_info cmd_resource_create_2d cmd_resource_unref cmd_set_scanout : CtrlType
  cmd_resource_flush cmd_transfer_to_host_2d cmd_resource_attach_backing : CtrlType
  cmd_resource_detach_backing cmd_get_capset_info cmd_get_capset cmd_get_edid : CtrlType
  cmd_resource_assign_uuid cmd_resource_create_blob cmd_set_scanout_blob : CtrlType
  cmd_ctx_create cmd_ctx_destroy cmd_ctx_attach_resource cmd_ctx_detach_resource : CtrlType
  cmd_resource_create_3d cmd_transfer_to_host_3d cmd_transfer_from_host_3d : CtrlType
  cmd_submit_3d cmd_resource_map_blob cmd_resource_unmap_blob cmd_update_cursor : CtrlType
  cmd_move_cursor resp_ok_no_data resp_ok_display_info resp_ok_capset_info : CtrlType
  resp_ok_capset resp_ok_edid resp_ok_resource_uuid resp_ok_map_info : CtrlType
  resp_err_unspec resp_err_out_of_memory resp_err_invalid_scanout_id : CtrlType
  resp_err_invalid_resource_id resp_err_invalid_context_id : CtrlType
  resp_err_invalid_parameter : CtrlType

unfoldable pub ctrl_type_number : CtrlType → ℕ
ctrl_type_number cmd_get_display_info = 0x100
ctrl_type_number cmd_resource_create_2d = 0x101
ctrl_type_number cmd_resource_unref = 0x102
ctrl_type_number cmd_set_scanout = 0x103
ctrl_type_number cmd_resource_flush = 0x104
ctrl_type_number cmd_transfer_to_host_2d = 0x105
ctrl_type_number cmd_resource_attach_backing = 0x106
ctrl_type_number cmd_resource_detach_backing = 0x107
ctrl_type_number cmd_get_capset_info = 0x108
ctrl_type_number cmd_get_capset = 0x109
ctrl_type_number cmd_get_edid = 0x10a
ctrl_type_number cmd_resource_assign_uuid = 0x10b
ctrl_type_number cmd_resource_create_blob = 0x10c
ctrl_type_number cmd_set_scanout_blob = 0x10d
ctrl_type_number cmd_ctx_create = 0x200
ctrl_type_number cmd_ctx_destroy = 0x201
ctrl_type_number cmd_ctx_attach_resource = 0x202
ctrl_type_number cmd_ctx_detach_resource = 0x203
ctrl_type_number cmd_resource_create_3d = 0x204
ctrl_type_number cmd_transfer_to_host_3d = 0x205
ctrl_type_number cmd_transfer_from_host_3d = 0x206
ctrl_type_number cmd_submit_3d = 0x207
ctrl_type_number cmd_resource_map_blob = 0x208
ctrl_type_number cmd_resource_unmap_blob = 0x209
ctrl_type_number cmd_update_cursor = 0x300
ctrl_type_number cmd_move_cursor = 0x301
ctrl_type_number resp_ok_no_data = 0x1100
ctrl_type_number resp_ok_display_info = 0x1101
ctrl_type_number resp_ok_capset_info = 0x1102
ctrl_type_number resp_ok_capset = 0x1103
ctrl_type_number resp_ok_edid = 0x1104
ctrl_type_number resp_ok_resource_uuid = 0x1105
ctrl_type_number resp_ok_map_info = 0x1106
ctrl_type_number resp_err_unspec = 0x1200
ctrl_type_number resp_err_out_of_memory = 0x1201
ctrl_type_number resp_err_invalid_scanout_id = 0x1202
ctrl_type_number resp_err_invalid_resource_id = 0x1203
ctrl_type_number resp_err_invalid_context_id = 0x1204
ctrl_type_number resp_err_invalid_parameter = 0x1205

-- enum VirtioGpuFormats
pub data GpuFormat : Type 0 where
  format_b8g8r8a8_unorm format_b8g8r8x8_unorm format_a8r8g8b8_unorm : GpuFormat
  format_x8r8g8b8_unorm format_r8g8b8a8_unorm format_x8b8g8r8_unorm : GpuFormat
  format_a8b8g8r8_unorm format_r8g8b8x8_unorm : GpuFormat

unfoldable pub gpu_format_number : GpuFormat → ℕ
gpu_format_number format_b8g8r8a8_unorm = 1
gpu_format_number format_b8g8r8x8_unorm = 2
gpu_format_number format_a8r8g8b8_unorm = 3
gpu_format_number format_x8r8g8b8_unorm = 4
gpu_format_number format_r8g8b8a8_unorm = 67
gpu_format_number format_x8b8g8r8_unorm = 68
gpu_format_number format_a8b8g8r8_unorm = 121
gpu_format_number format_r8g8b8x8_unorm = 134
