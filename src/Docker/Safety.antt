-- ===== src/Docker/Safety.antt =====
-- What the Docker panel can make the remote host run.
use dbx_plugin_ninty_shell.Base.{List, [], ◌∷◌, ◌++◌, ◌≡◌, refl, sym, All, append-nil, ap}
use dbx_plugin_ninty_shell.Text.{Bytes, codes}
use dbx_plugin_ninty_shell.Text.Words.{join}
use dbx_plugin_ninty_shell.Docker.Ids.{IsHexId}
use dbx_plugin_ninty_shell.Docker.Requests.{
  container_details_command, image_summary_command, then_marker,
}

-- The texts of the program that commands are made of.
pub data Fixed : Type 0 where
  detect version containers images start stop restart remove logs logs_end inspect : Fixed
  inspect_image ancestor ancestor_end image_marker container_marker host_addresses remove_image
        blank :
      Fixed

unfoldable pub text_of : Fixed → Bytes
text_of detect =
    codes "if command -v docker >/dev/null 2>&1; then printf installed; else printf missing; fi"
text_of version =
    codes "docker version --format '{{.Client.Version}}|{{if .Server}}{{.Server.Version}}{{end}}'"
text_of containers = codes "docker ps -a --format '{{json .}}'"
text_of images = codes "docker images --format '{{json .}}'"
text_of start = codes "docker start "
text_of stop = codes "docker stop -t 10 "
text_of restart = codes "docker restart -t 10 "
text_of remove = codes "docker rm "
text_of logs = codes "docker logs --tail 200 --timestamps "
text_of logs_end = codes " 2>&1"
text_of inspect = codes "docker inspect --format '{{json .}}' "
text_of inspect_image = codes "docker image inspect --format '{{json .}}' "
text_of ancestor = codes " && docker ps -a --filter ancestor="
text_of ancestor_end = codes " --format '{{.ID}}'"
text_of image_marker = codes " && printf '\\n__NINTYSHELL_DOCKER_IMAGE_DETAILS_6E4C9A__\\n'"
text_of container_marker = codes " && printf '\\n__NINTYSHELL_DOCKER_CONTAINER_DETAILS_6E4C9A__\\n'"
text_of host_addresses = codes " && { hostname -I 2>/dev/null || true; }"
text_of remove_image = codes "docker image rm "
text_of blank = codes " "

-- A part of a command: a text of the program, or an identifier.
pub data Part : Type 0 where
  fixed : Fixed → Part
  id : Bytes → Part

abbrev pub IsSafePart : Part → Type 0
IsSafePart (fixed f) = Unit
IsSafePart (id text) = IsHexId text

pub render : List Part → Bytes
unfolding text_of
render [] = []
render (fixed f ∷ ps) = text_of f ++ render ps
render (id text ∷ ps) = text ++ render ps

-- The command is texts of the program and valid identifiers, in some order.
pub record IsSafeCommand (command : Bytes) : Type 0 where
  pub parts : List Part
  pub safe : All IsSafePart parts
  pub made : command ≡ render parts

-- The parts of a joined list of identifiers.
id_parts : List Bytes → List Part
id_parts [] = []
id_parts (i ∷ []) = id i ∷ []
id_parts (i ∷ j ∷ is) = id i ∷ fixed blank ∷ id_parts (j ∷ is)

id_parts-IsSafe : (is : List Bytes) → All IsHexId is → All IsSafePart (id_parts is)
unfolding id_parts
id_parts-IsSafe [] h = tt
id_parts-IsSafe (i ∷ []) (hi, h) = (hi, tt)
id_parts-IsSafe (i ∷ j ∷ is) (hi, h) = (hi, (tt, id_parts-IsSafe (j ∷ is) h))

join-parts : (is : List Bytes) → join (codes " ") is ≡ render (id_parts is)
unfolding id_parts render join
join-parts [] = refl
join-parts (i ∷ []) = sym (append-nil i)
join-parts (i ∷ j ∷ is) = ap (λ t. i ++ (codes " " ++ t)) (join-parts (j ∷ is))

-- A text of the program alone, and one in front of an identifier.
pub fixed-IsSafe : (f : Fixed) → IsSafeCommand (text_of f)
unfolding render
fixed-IsSafe f = record {
  parts = fixed f ∷ [];
  safe = (tt, tt);
  made = sym (append-nil (text_of f));
}

pub before_id-IsSafe : (f : Fixed) (i : Bytes) → IsHexId i → IsSafeCommand (text_of f ++ i)
unfolding render
before_id-IsSafe f i h = record {
  parts = fixed f ∷ id i ∷ [];
  safe = (tt, (h, tt));
  made = ap (λ t. text_of f ++ t) (sym (append-nil i));
}

pub inspect-IsSafe :
    (is : List Bytes) → All IsHexId is → IsSafeCommand (text_of inspect ++ join (codes " ") is)
unfolding render
inspect-IsSafe is h = record {
  parts = fixed inspect ∷ id_parts is;
  safe = (tt, id_parts-IsSafe is h);
  made = ap (λ t. text_of inspect ++ t) (join-parts is);
}

pub around_id-IsSafe :
    (f : Fixed) (i : Bytes) (g : Fixed) → IsHexId i → IsSafeCommand (text_of f ++ (i ++ text_of g))
unfolding render
around_id-IsSafe f i g h = record {
  parts = fixed f ∷ id i ∷ fixed g ∷ [];
  safe = (tt, (h, (tt, tt)));
  made = ap (λ t. text_of f ++ (i ++ t)) (sym (append-nil (text_of g)));
}

pub container_details_command-IsSafe :
    (i : Bytes) → IsHexId i → IsSafeCommand (container_details_command i)
unfolding container_details_command then_marker render
container_details_command-IsSafe i h = record {
  parts = fixed inspect ∷ id i ∷ fixed container_marker ∷ fixed host_addresses ∷ [];
  safe = (tt, (h, (tt, (tt, tt))));
  made = refl;
}

pub image_summary_command-IsSafe : (i : Bytes) → IsHexId i → IsSafeCommand (image_summary_command i)
unfolding image_summary_command then_marker render
image_summary_command-IsSafe i h = record {
  parts =
      fixed inspect_image
      ∷ id i
      ∷ fixed image_marker
      ∷ fixed ancestor
      ∷ id i
      ∷ fixed ancestor_end
      ∷ fixed image_marker
      ∷ fixed host_addresses
      ∷ [];
  safe = (tt, (h, (tt, (tt, (h, (tt, (tt, (tt, tt))))))));
  made = refl;
}
