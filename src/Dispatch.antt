-- ===== src/Dispatch.antt =====
-- The table of requests, `handle` of backend/main.go.
use dbx_plugin_ninty_shell.Base.{Option, none, some, List, [], ◌∷◌, if◌then◌else◌}
use dbx_plugin_ninty_shell.Text.{Bytes, codes, is_empty}
use dbx_plugin_ninty_shell.Text.Equal.{bytes_eq}
use dbx_plugin_ninty_shell.Request.{Json, object, end}

-- The handlers, by the name of their functions.
pub data Handler : Type 0 where
  test_connection connect disconnect exec_command cancel_command working_dir : Handler
  complete pty_input pty_resize shell_config sftp_list sftp_mkdir : Handler
  sftp_delete sftp_rename sftp_upload_begin sftp_upload_chunk sftp_upload_end sftp_download :
      Handler
  docker_detect docker_overview docker_container_action docker_container_details
        docker_container_logs docker_image_action :
      Handler
  docker_image_details fs_list fs_read fs_write fs_create_directory fs_delete : Handler
  fs_rename : Handler

-- The cases of the switch, in order.
unfoldable pub routes : List (Bytes × Handler)
routes =
    (codes "connection/test", test_connection)
    ∷ (codes "connection/connect", connect)
    ∷ (codes "connection/disconnect", disconnect)
    ∷ (codes "shell/exec", exec_command)
    ∷ (codes "shell/cancel", cancel_command)
    ∷ (codes "shell/cwd", working_dir)
    ∷ (codes "shell/complete", complete)
    ∷ (codes "shell/input", pty_input)
    ∷ (codes "shell/resize", pty_resize)
    ∷ (codes "shell/config", shell_config)
    ∷ (codes "sftp/list", sftp_list)
    ∷ (codes "sftp/mkdir", sftp_mkdir)
    ∷ (codes "sftp/delete", sftp_delete)
    ∷ (codes "sftp/rename", sftp_rename)
    ∷ (codes "sftp/uploadBegin", sftp_upload_begin)
    ∷ (codes "sftp/uploadChunk", sftp_upload_chunk)
    ∷ (codes "sftp/uploadEnd", sftp_upload_end)
    ∷ (codes "sftp/download", sftp_download)
    ∷ (codes "docker/detect", docker_detect)
    ∷ (codes "docker/overview", docker_overview)
    ∷ (codes "docker/container", docker_container_action)
    ∷ (codes "docker/containerDetails", docker_container_details)
    ∷ (codes "docker/logs", docker_container_logs)
    ∷ (codes "docker/image", docker_image_action)
    ∷ (codes "docker/imageDetails", docker_image_details)
    ∷ (codes "filesystem/list", fs_list)
    ∷ (codes "filesystem/read", fs_read)
    ∷ (codes "filesystem/write", fs_write)
    ∷ (codes "filesystem/createDirectory", fs_create_directory)
    ∷ (codes "filesystem/delete", fs_delete)
    ∷ (codes "filesystem/rename", fs_rename)
    ∷ []

find_route : Bytes → List (Bytes × Handler) → Option Handler
find_route method [] = none
find_route method ((name, h) ∷ rest) =
    let later = find_route method rest in if bytes_eq method name then some h else later

-- `none` is MethodNotFound.
unfoldable pub route : Bytes → Option Handler
unfolding find_route
route method = find_route method routes

pub data Handled (A : Type 0) : Type 0 where
  invalid_parameters : Handled A
  method_not_found : Bytes → Handled A
  handled : A → Handled A

module _ {A : Type 0} (unmarshal : Bytes → Option Json) (run : Handler → Json → A) where
  routed : Bytes → Json → Option Handler → Handled A
  routed method values none = method_not_found method
  routed method values (some h) = handled (run h values)

  with_values : Bytes → Option Json → Handled A
  unfolding routed
  with_values method none = invalid_parameters
  with_values method (some values) = routed method values (route method)

  -- json.Unmarshal into a map, with `none` for an error, is a parameter, and so are the handlers.
  unfoldable pub handle : Bytes → Bytes → Handled A
  unfolding with_values
  handle method params =
      with_values method (if is_empty params then some (object end) else unmarshal params)
