-- ===== src/Command/Contract/Files.antt =====
-- The error codes and the kind of the two source file commands.
use gdbwire.Base.{
  allocate, ◌≡◌, refl, not, Option, none, some, Bytes, codes, streq, assert, atoi, ℤ,
}
use gdbwire.Pt.{MiResult, null, cstring, tuple, list, MiResultRecord, strdup}
use gdbwire.Command.Types.{
  kind_of, kind_file_list_exec_source_file, kind_file_list_exec_source_files,
}
use gdbwire.Command.Common.{compared, is_done, is_null, checked_calloc, refused}
use gdbwire.Command.Files.{
  SourceFields, set_source_field, is_flag, source_fields, in_range, copied, source_command,
  finish_source, no_source_fields, file_list_exec_source_file, FileFields, set_file_field,
  file_fields, asserted_calloc, asserted_text, no_file_fields, source_file_node, source_files,
  files_of, file_list_exec_source_files,
}
use gdbwire.Command.Contract.{
  pure-Keeps, undefined-Keeps, assert-fails, nomem-fails, Keeps, IsSound, Keeps-bind,
  assert-IsSound, compared-IsSound, checked_calloc-IsSound, allocate-IsSound, Keeps-if, Keeps-elim,
  strdup-IsSound,
}

set_source_field-IsSound :
    (name text : Bytes) (f : SourceFields) → IsSound (set_source_field name text f)
unfolding set_source_field
set_source_field-IsSound name text f =
    Keeps-if _ (streq name (codes "line")) _ _ (pure-Keeps _ tt) (
      Keeps-if _ (streq name (codes "file")) _ _ (pure-Keeps _ tt) (
        Keeps-if _ (streq name (codes "fullname")) _ _ (pure-Keeps _ tt) (
          Keeps-if _ (streq name (codes "macro-info")) _ _
            (Keeps-bind _ (assert (is_flag text)) _ (assert-IsSound (is_flag text))
              λ _. pure-Keeps _ tt)
            (pure-Keeps _ tt))))

source_fields-IsSound : (r : MiResult) (f : SourceFields) → IsSound (source_fields r f)
unfolding source_fields
source_fields-IsSound null f = pure-Keeps _ tt
source_fields-IsSound (cstring v text next) f =
    Keeps-bind _ (compared v) _ (compared-IsSound v) λ name.
      Keeps-bind _ (set_source_field name text f) _ (set_source_field-IsSound name text f)
        λ g. source_fields-IsSound next g
source_fields-IsSound (tuple v sub next) f = source_fields-IsSound next f
source_fields-IsSound (list v sub next) f = source_fields-IsSound next f

pub in_range-IsSound : (o : Option ℤ) → IsSound (in_range o)
in_range-IsSound none = undefined-Keeps
in_range-IsSound (some n) = pure-Keeps n tt

copied-IsSound : (o : Option Bytes) → IsSound (copied o)
copied-IsSound none = nomem-fails
copied-IsSound (some t) = pure-Keeps t tt

source_command-Keeps :
    (line file : Bytes) (f : SourceFields)
    → Keeps (λ c. kind_of c ≡ kind_file_list_exec_source_file) (source_command line file f)
unfolding source_command
source_command-Keeps line file f = Keeps-bind _ checked_calloc _ checked_calloc-IsSound λ _.
    Keeps-bind _ (in_range (atoi line)) _ (in_range-IsSound (atoi line)) λ n.
      Keeps-bind _ (strdup (some file)) _ (strdup-IsSound (some file)) λ file_copy.
        Keeps-bind _ (copied file_copy) _ (copied-IsSound file_copy) λ file1.
          Keeps-bind _ (strdup f.fullname) _ (strdup-IsSound f.fullname) λ fullname1.
            Keeps-elim _ (refused f.fullname fullname1) _ _ nomem-fails (pure-Keeps _ refl)

finish_source-Keeps :
    (line file : Option Bytes) (f : SourceFields)
    → Keeps (λ c. kind_of c ≡ kind_file_list_exec_source_file) (finish_source line file f)
unfolding finish_source
finish_source-Keeps (some line) (some file) f = source_command-Keeps line file f
finish_source-Keeps none file f = assert-fails
finish_source-Keeps (some line) none f = assert-fails

pub file_list_exec_source_file-Keeps :
    (r : MiResultRecord)
    → Keeps (λ c. kind_of c ≡ kind_file_list_exec_source_file) (file_list_exec_source_file r)
unfolding file_list_exec_source_file
file_list_exec_source_file-Keeps r =
    Keeps-bind _ (assert (is_done r.result_class)) _ (assert-IsSound _) λ _.
      Keeps-bind _ (assert (not (is_null r.result))) _ (assert-IsSound _) λ _.
        Keeps-bind _ (source_fields r.result no_source_fields) _
          (source_fields-IsSound r.result no_source_fields) λ f. finish_source-Keeps f.line f.file f

file_fields-IsSound : (r : MiResult) (f : FileFields) → IsSound (file_fields r f)
unfolding file_fields
file_fields-IsSound null f = pure-Keeps _ tt
file_fields-IsSound (cstring v text next) f =
    Keeps-bind _ (compared v) _ (compared-IsSound v)
      λ name. file_fields-IsSound next (set_file_field name text f)
file_fields-IsSound (tuple v sub next) f = assert-fails
file_fields-IsSound (list v sub next) f = assert-fails

asserted_text-IsSound : (o : Option Bytes) → IsSound (asserted_text o)
asserted_text-IsSound none = assert-fails
asserted_text-IsSound (some t) = pure-Keeps t tt

asserted_calloc-IsSound : IsSound asserted_calloc
asserted_calloc-IsSound =
    Keeps-bind _ allocate _ allocate-IsSound
      λ granted. Keeps-elim _ granted _ _ (pure-Keeps tt tt) assert-fails

source_file_node-IsSound : (f : FileFields) → IsSound (source_file_node f)
unfolding source_file_node
source_file_node-IsSound f =
    Keeps-bind _ (asserted_text f.file) _ (asserted_text-IsSound f.file) λ file.
      Keeps-bind _ asserted_calloc _ asserted_calloc-IsSound λ _.
        Keeps-bind _ (strdup (some file)) _ (strdup-IsSound (some file)) λ file1.
          Keeps-bind _ (strdup f.fullname) _ (strdup-IsSound f.fullname) λ fullname1.
            Keeps-bind _ (asserted_text file1) _ (asserted_text-IsSound file1) λ file2.
              Keeps-elim _ (refused f.fullname fullname1) _ _ assert-fails (pure-Keeps _ tt)

source_files-IsSound : (r : MiResult) → IsSound (source_files r)
unfolding source_files
source_files-IsSound null = pure-Keeps _ tt
source_files-IsSound (tuple v sub next) =
    Keeps-bind _ (file_fields sub no_file_fields) _ (file_fields-IsSound sub no_file_fields) λ f.
      Keeps-bind _ (source_file_node f) _ (source_file_node-IsSound f) λ node.
        Keeps-bind _ (source_files next) _ (source_files-IsSound next) λ nodes. pure-Keeps _ tt
source_files-IsSound (cstring v text next) = assert-fails
source_files-IsSound (list v sub next) = assert-fails

files_of-IsSound : (r : MiResult) → IsSound (files_of r)
unfolding files_of
files_of-IsSound (list v sub next) = Keeps-bind _ (compared v) _ (compared-IsSound v) λ name.
    Keeps-bind _ (assert (streq name (codes "files"))) _ (assert-IsSound _)
      λ _. Keeps-bind _ (assert (is_null next)) _ (assert-IsSound _) λ _. pure-Keeps _ tt
files_of-IsSound null = assert-fails
files_of-IsSound (cstring v t next) = assert-fails
files_of-IsSound (tuple v sub next) = assert-fails

pub file_list_exec_source_files-Keeps :
    (r : MiResultRecord)
    → Keeps (λ c. kind_of c ≡ kind_file_list_exec_source_files) (file_list_exec_source_files r)
unfolding file_list_exec_source_files
file_list_exec_source_files-Keeps r =
    Keeps-bind _ (assert (is_done r.result_class)) _ (assert-IsSound _) λ _.
      Keeps-bind _ (assert (not (is_null r.result))) _ (assert-IsSound _) λ _.
        Keeps-bind _ (files_of r.result) _ (files_of-IsSound r.result) λ sub.
          Keeps-bind _ (source_files sub) _ (source_files-IsSound sub)
            λ nodes. Keeps-bind _ asserted_calloc _ asserted_calloc-IsSound λ _. pure-Keeps _ refl
