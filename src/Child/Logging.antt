-- ===== src/Child/Logging.antt =====
-- utils/logger.h, lines 25 to 90, and utils/logger.cpp, lines 14 to 30: the levels of messages, and their printing.
use frame_processor.Base.{
  ◌++◌, pos, codes, decimal, Option, none, some, ℕ, ◌-◌, ◌==◌, leb, Bool, ◌&&◌, [], ◌∷◌, Text,
  if◌then◌else◌,
}

pub data LogLevel : Type 0 where
  fail error warn info debug : LogLevel

-- The number of a level, by which `G_LOG_LEVEL` is compared.
unfoldable pub severity : LogLevel → ℕ
severity fail = 0
severity error = 1
severity warn = 2
severity info = 3
severity debug = 4

-- Whether a message of this level is printed.
unfoldable pub is_printed : LogLevel → LogLevel → Bool
unfolding severity
is_printed message g_log_level = leb (severity message) (severity g_log_level)

-- The standard streams.
pub data Stream : Type 0 where
  stdout stderr : Stream

-- The stream and the label of a level's messages.
unfoldable pub stream_of : LogLevel → Stream
stream_of fail = stderr
stream_of error = stderr
stream_of warn = stdout
stream_of info = stdout
stream_of debug = stdout

unfoldable pub level_str : LogLevel → Text
level_str fail = codes "FAIL "
level_str error = codes "ERROR"
level_str warn = codes "WARN "
level_str info = codes "INFO "
level_str debug = codes "DEBUG"

-- `_log_print`, of a time and a message as `fmt` writes them.
unfoldable pub log_print : Text → Text → Text → ℕ → Text → Text
log_print time level file line message =
    codes "["
    ++ (time
        ++ (codes "] ["
            ++ (level
                ++ (codes "] ["
                    ++ (file
                        ++ (codes ":"
                            ++ (decimal (pos line) ++ (codes "] " ++ (message ++ codes "\n")))))))))

-- `FAIL_MSG` to `DEBUG_MSG`: what a message adds to which stream.
unfoldable pub print_message : LogLevel → LogLevel → Text → Text → ℕ → Text → Option (Stream × Text)
unfolding is_printed stream_of level_str log_print
print_message message_level g_log_level time file line message =
    if is_printed message_level g_log_level
    then some (stream_of message_level, log_print time (level_str message_level) file line message)
    else none

-- `std::toupper` of the C locale.
unfoldable pub toupper : ℕ → ℕ
toupper c = if leb 97 c && leb c 122 then c - 32 else c

-- By the first letter.
unfoldable pub string_to_loglevel : Text → LogLevel
unfolding toupper
string_to_loglevel [] = info
string_to_loglevel (c ∷ rest) =
    let letter = toupper c in
    if letter == 70
    then fail
    else if letter == 69
    then error
    else if letter == 87
    then warn
    else if letter == 73
    then info
    else if letter == 68
    then debug
    else info
