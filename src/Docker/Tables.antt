-- ===== src/Docker/Tables.antt =====
-- The listings of `docker ps` and `docker images`, one JSON object to a line, backend/dockerapi.go.
use dbx_plugin_ninty_shell.Base.{
  none, some, List, [], ◌∷◌, ◌++◌, ◌⊎◌, inl, inr, if◌then◌else◌, take,
}
use dbx_plugin_ninty_shell.Text.{
  Bytes, codes, newline, is_empty, index, split, trim_prefix, trim_space,
}
use dbx_plugin_ninty_shell.Text.Equal.{bytes_eq}
use dbx_plugin_ninty_shell.Text.Words.{to_lower}
use dbx_plugin_ninty_shell.Docker.Types.{Container, Image}

-- value[key], empty where there is none
table_get : Bytes → List (Bytes × Bytes) → Bytes
table_get key [] = []
table_get key ((k, v) ∷ rest) =
    let later = table_get key rest in if bytes_eq k key then v else later

trimmed_get : Bytes → List (Bytes × Bytes) → Bytes
unfolding table_get
trimmed_get key value = trim_space (table_get key value)

first_name : Bytes → Bytes
first_name names = elim (index names (codes ",")) [
  | none ↦ names
  | some i ↦ trim_space (take i names)
]

unfoldable pub container_of : List (Bytes × Bytes) → Container
unfolding trimmed_get first_name
container_of value = record {
  id = trim_prefix (trimmed_get (codes "ID") value) (codes "sha256:");
  names = first_name (trim_prefix (trimmed_get (codes "Names") value) (codes "/"));
  image = trimmed_get (codes "Image") value;
  state = to_lower (trimmed_get (codes "State") value);
  status = trimmed_get (codes "Status") value;
  ports = trimmed_get (codes "Ports") value;
}

unfoldable pub image_of : List (Bytes × Bytes) → Image
unfolding trimmed_get
image_of value = record {
  repository = trimmed_get (codes "Repository") value;
  tag = trimmed_get (codes "Tag") value;
  id = trim_prefix (trimmed_get (codes "ID") value) (codes "sha256:");
  size = trimmed_get (codes "Size") value;
  created = trimmed_get (codes "CreatedSince") value;
}

-- The loop over the lines that all parsers of the panel share: blank lines are left out, the first
-- line that is refused ends it.
module _ {A : Type 0} (read : Bytes → Bytes ⊎ A) where
  abbrev pub cons_read : Bytes ⊎ A → Bytes ⊎ List A → Bytes ⊎ List A
  cons_read (inl err) rest = inl err
  cons_read (inr a) (inl err) = inl err
  cons_read (inr a) (inr as') = inr (a ∷ as')

  unfoldable pub read_lines : List Bytes → Bytes ⊎ List A
  read_lines [] = inr []
  read_lines (l ∷ ls) =
      let line = trim_space l in
      let rest = read_lines ls in
      let here = cons_read (read line) rest in if is_empty line then rest else here

unfoldable pub read_table :
    {A : Type 0} → Bytes → (List (Bytes × Bytes) → A) → Bytes ⊎ List (Bytes × Bytes) → Bytes ⊎ A
read_table text make (inl err) = inl (text ++ err)
read_table text make (inr value) = inr (make value)

unfoldable pub parse_docker_containers :
    (Bytes → Bytes ⊎ List (Bytes × Bytes)) → Bytes → Bytes ⊎ List Container
unfolding read_lines read_table container_of
parse_docker_containers decode raw =
    read_lines
      (λ line. read_table (codes "cannot parse Docker container data: ") container_of (decode line))
      (split newline raw)

unfoldable pub parse_docker_images :
    (Bytes → Bytes ⊎ List (Bytes × Bytes)) → Bytes → Bytes ⊎ List Image
unfolding read_lines read_table image_of
parse_docker_images decode raw =
    read_lines
      (λ line. read_table (codes "cannot parse Docker image data: ") image_of (decode line))
      (split newline raw)
