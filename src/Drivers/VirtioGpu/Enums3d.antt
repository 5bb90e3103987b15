-- ===== src/Drivers/VirtioGpu/Enums3d.antt =====
-- The enumerations of the 3d commands in bootloader/kernel/src/drivers/virtio_gpu.rs, with their
-- `repr(u32)` numbers.
use fomos.Common.{ℕ}

-- enum Cmd3d
pub data Cmd3d : Type 0 where
  ccmd_nop ccmd_create_object ccmd_bind_object ccmd_destroy_object : Cmd3d
  ccmd_set_viewport_state ccmd_set_framebuffer_state ccmd_set_vertex_buffers : Cmd3d
  ccmd_clear ccmd_draw_vbo ccmd_resource_inline_write ccmd_set_sampler_views : Cmd3d
  ccmd_set_index_buffer ccmd_set_constant_buffer ccmd_set_stencil_ref : Cmd3d
  ccmd_set_blend_color ccmd_set_scissor_state ccmd_blit ccmd_resource_copy_region : Cmd3d
  ccmd_bind_sampler_states ccmd_begin_query ccmd_end_query ccmd_get_query_result : Cmd3d
  ccmd_set_polygon_stipple ccmd_set_clip_state ccmd_set_sample_mask : Cmd3d
  ccmd_set_streamout_targets ccmd_set_render_condition ccmd_set_uniform_buffer : Cmd3d
  ccmd_set_sub_ctx ccmd_create_sub_ctx ccmd_destroy_sub_ctx ccmd_bind_shader : Cmd3d
  ccmd_set_tess_state ccmd_set_min_samples ccmd_set_shader_buffers : Cmd3d
  ccmd_set_shader_images ccmd_memory_barrier ccmd_launch_grid : Cmd3d
  ccmd_set_framebuffer_state_no_attach ccmd_texture_barrier : Cmd3d
  ccmd_set_atomic_buffers ccmd_set_debug_flags ccmd_get_query_result_qbo : Cmd3d
  ccmd_transfer3d ccmd_end_transfers ccmd_copy_transfer3d ccmd_set_tweaks : Cmd3d
  ccmd_clear_texture ccmd_pipe_resource_create ccmd_pipe_resource_set_type : Cmd3d
  ccmd_get_memory_info ccmd_send_string_marker ccmd_link_shader : Cmd3d
  ccmd_create_video_codec ccmd_destroy_video_codec ccmd_create_video_buffer : Cmd3d
  ccmd_destroy_video_buffer ccmd_begin_frame ccmd_decode_macroblock : Cmd3d
  ccmd_decode_bitstream ccmd_encode_bitstream ccmd_end_frame max_commands : Cmd3d

unfoldable pub cmd_3d_number : Cmd3d → ℕ
cmd_3d_number ccmd_nop = 0
cmd_3d_number ccmd_create_object = 1
cmd_3d_number ccmd_bind_object = 2
cmd_3d_number ccmd_destroy_object = 3
cmd_3d_number ccmd_set_viewport_state = 4
cmd_3d_number ccmd_set_framebuffer_state = 5
cmd_3d_number ccmd_set_vertex_buffers = 6
cmd_3d_number ccmd_clear = 7
cmd_3d_number ccmd_draw_vbo = 8
cmd_3d_number ccmd_resource_inline_write = 9
cmd_3d_number ccmd_set_sampler_views = 10
cmd_3d_number ccmd_set_index_buffer = 11
cmd_3d_number ccmd_set_constant_buffer = 12
cmd_3d_number ccmd_set_stencil_ref = 13
cmd_3d_number ccmd_set_blend_color = 14
cmd_3d_number ccmd_set_scissor_state = 15
cmd_3d_number ccmd_blit = 16
cmd_3d_number ccmd_resource_copy_region = 17
cmd_3d_number ccmd_bind_sampler_states = 18
cmd_3d_number ccmd_begin_query = 19
cmd_3d_number ccmd_end_query = 20
cmd_3d_number ccmd_get_query_result = 21
cmd_3d_number ccmd_set_polygon_stipple = 22
cmd_3d_number ccmd_set_clip_state = 23
cmd_3d_number ccmd_set_sample_mask = 24
cmd_3d_number ccmd_set_streamout_targets = 25
cmd_3d_number ccmd_set_render_condition = 26
cmd_3d_number ccmd_set_uniform_buffer = 27
cmd_3d_number ccmd_set_sub_ctx = 28
cmd_3d_number ccmd_create_sub_ctx = 29
cmd_3d_number ccmd_destroy_sub_ctx = 30
cmd_3d_number ccmd_bind_shader = 31
cmd_3d_number ccmd_set_tess_state = 32
cmd_3d_number ccmd_set_min_samples = 33
cmd_3d_number ccmd_set_shader_buffers = 34
cmd_3d_number ccmd_set_shader_images = 35
cmd_3d_number ccmd_memory_barrier = 36
cmd_3d_number ccmd_launch_grid = 37
cmd_3d_number ccmd_set_framebuffer_state_no_attach = 38
cmd_3d_number ccmd_texture_barrier = 39
cmd_3d_number ccmd_set_atomic_buffers = 40
cmd_3d_number ccmd_set_debug_flags = 41
cmd_3d_number ccmd_get_query_result_qbo = 42
cmd_3d_number ccmd_transfer3d = 43
cmd_3d_number ccmd_end_transfers = 44
cmd_3d_number ccmd_copy_transfer3d = 45
cmd_3d_number ccmd_set_tweaks = 46
cmd_3d_number ccmd_clear_texture = 47
cmd_3d_number ccmd_pipe_resource_create = 48
cmd_3d_number ccmd_pipe_resource_set_type = 49
cmd_3d_number ccmd_get_memory_info = 50
cmd_3d_number ccmd_send_string_marker = 51
cmd_3d_number ccmd_link_shader = 52
cmd_3d_number ccmd_create_video_codec = 53
cmd_3d_number ccmd_destroy_video_codec = 54
cmd_3d_number ccmd_create_video_buffer = 55
cmd_3d_number ccmd_destroy_video_buffer = 56
cmd_3d_number ccmd_begin_frame = 57
cmd_3d_number ccmd_decode_macroblock = 58
cmd_3d_number ccmd_decode_bitstream = 59
cmd_3d_number ccmd_encode_bitstream = 60
cmd_3d_number ccmd_end_frame = 61
cmd_3d_number max_commands = 62

-- enum VirglObjectType
pub data ObjectType : Type 0 where
  object_null object_blend object_rasterizer object_dsa object_shader : ObjectType
  object_vertex_elements object_sampler_view object_sampler_state object_surface : ObjectType
  object_query object_streamout_target object_msaa_surface max_objects : ObjectType

unfoldable pub object_type_number : ObjectType → ℕ
object_type_number object_null = 0
object_type_number object_blend = 1
object_type_number object_rasterizer = 2
object_type_number object_dsa = 3
object_type_number object_shader = 4
object_type_number object_vertex_elements = 5
object_type_number object_sampler_view = 6
object_type_number object_sampler_state = 7
object_type_number object_surface = 8
object_type_number object_query = 9
object_type_number object_streamout_target = 10
object_type_number object_msaa_surface = 11
object_type_number max_objects = 12

-- enum PipeTextureTarget
pub data TextureTarget : Type 0 where
  pipe_buffer pipe_texture_1d pipe_texture_2d pipe_texture_3d pipe_texture_cube : TextureTarget
  pipe_texture_rect pipe_texture_1d_array pipe_texture_2d_array : TextureTarget
  pipe_texture_cube_array pipe_max_texture_types : TextureTarget

unfoldable pub texture_target_number : TextureTarget → ℕ
texture_target_number pipe_buffer = 0
texture_target_number pipe_texture_1d = 1
texture_target_number pipe_texture_2d = 2
texture_target_number pipe_texture_3d = 3
texture_target_number pipe_texture_cube = 4
texture_target_number pipe_texture_rect = 5
texture_target_number pipe_texture_1d_array = 6
texture_target_number pipe_texture_2d_array = 7
texture_target_number pipe_texture_cube_array = 8
texture_target_number pipe_max_texture_types = 9
