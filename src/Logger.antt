-- ===== src/Logger.antt =====
-- The logger of base/logger/logger.go, and the rotation of its files. A file system is a map from names
-- to the lines of the files; whether a call of it fails is an argument. A time is the text that `suffix`
-- makes of it, and what a line shows of its level, place and time is part of its text.
pub mod Rotated
mod Tests
use gogame.Common.{
  ℕ, ◌+◌, ◌%◌, ◌^◌, Bool, true, false, ◌||◌, List, [], ◌∷◌, ◌++◌, Option, none, some, ◌==◌, ltb,
  leb, if◌then◌else◌, length, not,
}
use gogame.Text.{Text, equals, codes, print_decimal}
use gogame.Text.Keyed

abbrev pub level_fatal : ℕ
level_fatal = 1

abbrev pub level_error : ℕ
level_error = 2

abbrev pub level_warn : ℕ
level_warn = 3

abbrev pub level_info : ℕ
level_info = 4

abbrev pub level_debug : ℕ
level_debug = 5

abbrev pub Files : Type 0
Files = List (Text × List Text)

-- The open file by its name, and `none` before the first one, when lines go to the console. `is_open` tells
-- whether its descriptor is.
pub record Logger : Type 0 where
  pub err_count : ℕ
  pub log_level : ℕ
  pub max_size : ℕ
  pub file : Option Text
  pub is_open : Bool
  pub size_ext : ℕ

pub record World : Type 0 where
  pub logger : Logger
  pub files : Files
  pub console : List Text

abbrev pub lines_of : Option (List Text) → List Text
lines_of none = []
lines_of (some lines) = lines

abbrev pub contents : Text → Files → List Text
contents name files = lines_of (Keyed.lookup name files)

-- A line is appended to the open file; on a closed one the write fails, and no one looks at that.
abbrev pub write_to : Option Text → Bool → Text → World → World
write_to none is_open line w = record {
  logger = w.logger;
  files = w.files;
  console = w.console ++ line ∷ [];
}
write_to (some name) false line w = w
write_to (some name) true line w = record {
  logger = w.logger;
  files = Keyed.insert name (contents name w.files ++ line ∷ []) w.files;
  console = w.console;
}

-- `doPrintln`: a level above that of the configuration is not printed.
unfoldable pub do_println : ℕ → Text → World → World
unfolding Keyed.lookup Keyed.insert
do_println level line w =
    if ltb w.logger.log_level level then w else write_to w.logger.file w.logger.is_open line w

abbrev pub with_logger : Logger → World → World
with_logger l w = record { logger = l; files = w.files; console = w.console }

abbrev pub with_err_count : ℕ → Logger → Logger
with_err_count n l = record {
  err_count = n;
  log_level = l.log_level;
  max_size = l.max_size;
  file = l.file;
  is_open = l.is_open;
  size_ext = l.size_ext;
}

-- The counter is an int32.
abbrev pub count_error : World → World
count_error w = with_logger (with_err_count ((w.logger.err_count + 1) % 2 ^ 32) w.logger) w

unfoldable pub error : Text → World → World
unfolding do_println
error line w = do_println level_error line (count_error w)

unfoldable pub warn : Text → World → World
unfolding do_println
warn line w = do_println level_warn line w

unfoldable pub info : Text → World → World
unfolding do_println
info line w = do_println level_info line w

unfoldable pub debug : Text → World → World
unfolding do_println
debug line w = do_println level_debug line w

-- The process exits afterwards.
unfoldable pub fatal : Text → World → World
unfolding do_println
fatal line w = do_println level_fatal line (count_error w)

-- A negative counter is reported, and `none` stands for -1.
unfoldable pub err_count : World → World × Option ℕ
unfolding warn
err_count w =
    if ltb w.logger.err_count (2 ^ 31)
    then (w, some w.logger.err_count)
    else (warn (codes "error count overflow") w, none)

-- The failures of one rotation.
pub record Faults : Type 0 where
  pub close_fails : Bool
  pub rename_fails : Bool
  pub open_fails : Bool

unfoldable pub remove_file : Text → Files → Files
unfolding equals
remove_file name [] = []
remove_file name ((key, lines) ∷ files) =
    let rest = remove_file name files in if equals key name then rest else (key, lines) ∷ rest

-- `os.Rename` replaces a file of the new name.
unfoldable pub rename : Text → Text → Files → Files
unfolding Keyed.lookup Keyed.insert remove_file
rename old new files = Keyed.insert new (contents old files) (remove_file old files)

abbrev pub renamed_unless : Bool → Text → Text → Files → Files
renamed_unless true old new files = files
renamed_unless false old new files = rename old new files

abbrev pub rename_file : Faults → Text → Text → Files → Files
rename_file faults old new files =
    if equals new []
    then files
    else if equals old new
    then files
    else renamed_unless faults.rename_fails old new files

-- The file is created, or appended to.
unfoldable pub open_file : Text → Files → Files
unfolding Keyed.lookup Keyed.insert
open_file name files = Keyed.insert name (contents name files) files

abbrev pub opened : Text → Logger → Logger
opened name l = record {
  err_count = l.err_count;
  log_level = l.log_level;
  max_size = l.max_size;
  file = some name;
  is_open = true;
  size_ext = l.size_ext;
}

abbrev pub closed : Logger → Logger
closed l = record {
  err_count = l.err_count;
  log_level = l.log_level;
  max_size = l.max_size;
  file = l.file;
  is_open = false;
  size_ext = l.size_ext;
}

-- A file that cannot be opened is counted as an error; the old one stays closed, if there was one.
abbrev pub open_new : Bool → Text → World → World
open_new true name w =
    write_to w.logger.file w.logger.is_open (codes "create log file failed") (count_error w)
open_new false name w = record {
  logger = opened name w.logger;
  files = open_file name w.files;
  console = w.console;
}

-- To close a file that is closed is an error.
abbrev pub trunc_from : Option Text → Faults → Text → Text → World → World
trunc_from none faults fp nfp w = open_new faults.open_fails fp w
trunc_from (some old) faults fp nfp w =
    if faults.close_fails || not w.logger.is_open
    then w
    else open_new faults.open_fails fp (record {
      logger = closed w.logger;
      files = rename_file faults old nfp w.files;
      console = w.console;
    })

unfoldable pub trunc : Faults → Text → Text → World → World
unfolding rename open_file equals
trunc faults fp nfp w = if equals fp nfp then w else trunc_from w.logger.file faults fp nfp w

-- `setLogPath`, with the name of the log file in a directory that is there.
abbrev pub name_or_empty : Option Text → Text
name_or_empty none = []
name_or_empty (some name) = name

unfoldable pub set_log_path : Faults → Text → World → World
unfolding trunc
set_log_path faults name w =
    if equals (name_or_empty w.logger.file) name
    then w
    else trunc faults name (name_or_empty w.logger.file) w

abbrev pub with_size_ext : ℕ → World → World
with_size_ext n w =
    with_logger
      (record {
        err_count = w.logger.err_count;
        log_level = w.logger.log_level;
        max_size = w.logger.max_size;
        file = w.logger.file;
        is_open = w.logger.is_open;
        size_ext = n;
      })
      w

-- The timers of `loop`: the interval is over; the size of the file, in bytes, is looked at.
abbrev pub rotate_interval : Option Text → Faults → Text → World → World
rotate_interval none faults suffix w = w
rotate_interval (some fp) faults suffix w =
    info (codes "log truncated by time interval")
      (with_size_ext 1 (trunc faults fp (fp ++ suffix) w))

unfoldable pub on_interval : Faults → Text → World → World
unfolding trunc info
on_interval faults suffix w = rotate_interval w.logger.file faults suffix w

abbrev pub rotate_size : Option Text → Faults → Text → ℕ → World → World
rotate_size none faults suffix size w = w
rotate_size (some fp) faults suffix size w =
    if ltb size w.logger.max_size
    then w
    else let after =
        trunc faults fp (fp ++ (suffix ++ b'.' ∷ print_decimal 20 w.logger.size_ext)) w in
      info (codes "log over size, truncated") (with_size_ext (w.logger.size_ext + 1) after)

unfoldable pub on_size : Faults → Text → ℕ → World → World
unfolding trunc info
on_size faults suffix size w = rotate_size w.logger.file faults suffix size w
