-- ===== src/Lib.antt =====
-- A model of the core logic of DrMem, a control system whose daemon `drmemd` runs drivers that own
-- devices, and logic blocks that compute settings from the values of devices.
--
-- The parts and how they interact: a driver reports readings of its devices and receives settings
-- of them; a device has a name and a current value; a device that is also controlled from outside
-- goes through a state machine of settings, readings and overrides; a logic block evaluates
-- expressions on the values of its inputs, the time and the sun whenever one of them changes; a
-- client finds devices by a pattern of names.
--
-- Base: shared names of the libraries, Boolean tests and lists on native numbers, integers and the
--   wrap-around of `i32`.
-- Api/Value: `Value` and `ColorType` of drmem-api/src/types/device/value.rs. A float is an element
--   of an abstract type `F`, a character is its code point, text is a list of characters.
-- Api/Name: `Segment`, `Path` and `Name` of drmem-api/src/types/device/name.rs. Api/Name/Laws has
--   the round trips of printing and parsing, Api/Name/Segments the grammar.
-- Api/Overridable: `OverridableDevice` of drmem-api/src/driver/overridable_device.rs.
--   `report_update` is the function of that name; `round` is one round of the loop of
--   `next_setting`, begun at a given time, whose wait ends with a given wakeup. What a function
--   sends, reports to the backend and replies to clients, is the list of actions that it returns.
-- Driver/Timer, Driver/Cycle, Driver/Latch, Driver/Counter, Driver/Integrate, Driver/Map: the
--   drivers of drmemd/src/driver/{timer,cycle,latch,counter,integrate,map}/driver.rs.
--   `update_state`, `time_expired`, `incrememt`, `accumulate` and `reset` are the methods of
--   `Instance`; the loop of `run` is a step relation (timer) or a function of the events in the
--   order in which `select!` takes them (the others).
--   Driver/Map also has `parse` of drmemd/src/driver/map/config.rs and the search of `map_to`.
-- Driver/Memory: `get_validator`, `Set` and the loop of `run` of drmemd/src/driver/memory.
--   `run` makes a given number of rounds. Driver/Memory/Replies says which reply a setting is due.
-- Glob: `Fsm` and `Pattern` of drmemd/src/backends/simple/glob.rs. Glob/Spec describes the search
--   by recursion and gives a meaning of patterns in which only `?` and `*` are special, Glob/Search
--   relates the machine to the search, Glob/Meaning the search to the meaning, and Glob/Grammar is
--   about patterns that other programs read in another way.
-- Backend/Simple: `SimpleStore` and `Report` of drmemd/src/backends/simple.rs. The mutex that the
--   entry of a device shares with its reporters is a place in a list of last readings.
--   Backend/Simple/Monitor is `monitor_device` and Backend/Simple/Query `get_device_info`;
--   Backend/Simple/Lookup and
--   Backend/Simple/View say what the store knows of a name, Backend/Simple/Register and
--   Backend/Simple/Update how the operations change that, and Backend/Simple/History which stores
--   and reporters occur.
-- Backend/Redis: `RedisStore` of drmemd/src/backends/redis.rs over a redis server that is a parameter
--   (`Server` for the commands, `xread` for the stream of readings). Base/Utf8 has UTF-8, Base/Split `str::split`,
--   Backend/Redis/Codec `to_redis` of drmemd/src/backends/redis/cmd.rs and `from_value`,
--   Backend/Redis/Stamp the ids of streams with Backend/Redis/Stamp/Decimal for their numbers,
--   Backend/Redis/Stream `ReadingStream` and `report_value`, Backend/Redis/Server the commands,
--   Backend/Redis/Device what is told of a device, Backend/Redis/Register registrations and
--   settings, Backend/Redis/Monitor `monitor_device`. `drain` polls a stream until it is pending
--   or ends.
-- External/Sump: `State` and `run` of drivers/drmem-drv-sump/src/driver.rs.
-- External/Ntp: `server` and `Instance` of drivers/drmem-drv-ntp/src/driver.rs: External/Ntp/Info has
--   the text, External/Ntp/Reply the requests and the packets, External/Ntp/Run the loop of `run`.
-- External/Tplink: the cipher and the frames of drivers/drmem-drv-tplink/src/driver, with
--   `read_reply` of driver.rs beside it. External/Tplink/Rpc has the requests of driver.rs,
--   External/Tplink/Run its settings, polls and loops; `manage` is `manage_switch` and
--   `manage_dimmer`, `acknowledge` what `pause_as_*` and `manage_connect_as_*` do with settings.
-- Logic: drmemd/src/logic/compile.rs. Logic/Expr has the syntax and `uses_time` and `uses_solar`,
--   Logic/Calendar the fields of a time, Logic/Ops the operators `eval_as_*_expr`, Logic/Eval
--   `eval`, and Logic/Optimize `optimize` with `fold_binary`. Logic/World has the parameters.
--   Logic/Filter is `TimeFilter` of drmemd/src/logic/tod.rs. Logic/Node is `Output` and `Node` of
--   drmemd/src/logic.rs: `send`, the end of `init` (`pair_up`, `needs_time`, `needs_solar`) and
--   one round of the loop of `run` (`step`).
-- Examples: the theorems applied at concrete values.
--
-- Numbers: a size is a native natural number, an `i32` an integer whose operations wrap as in a
-- release build; the division and the remainder of the least `i32` by -1 panic. Times and
-- durations of the drivers are numbers of milliseconds, those of the store of nanoseconds. A panic
-- is a value of the model: `none` of the cycle driver, `panic` of an evaluation, `panicked` of a
-- round of a logic block, `crash` of the optimiser.
--
-- Fuel: the loop of `Fsm::process` runs on fuel. A round that saves places to come back to saves
-- them with a shorter rest of the pattern, so that some fuel is enough. `drain` runs on the number of
-- requests that complete, `print` on the number that it prints, `trim_info` on the length of the
-- key. The search of `map_to`
-- runs on the length of its table, since each round makes the part that is searched smaller.
-- `optimize` recurs on its own results under a subtraction and a division, which use up fuel;
-- elsewhere its recursion is structural, and no fuel is needed. `get_device_info` passes the fuel of
-- the matcher on.
--
-- Parameters: the arithmetic of `f64`, the computations on colours in `f32`, the accessors of
-- chrono's times, the position of the sun, `char::is_alphanumeric`, the equality test of a device's
-- type, the largest `SystemTime`, the clock, what drivers and
-- peers answer, and redis with `redis::from_redis_value`, which reads its replies.
--
-- Not modelled: the connections to redis, the GraphQL server, the reading of configuration files, the
-- parser of expressions (generated from logic.l and logic.y), the channels and the tasks of tokio,
-- logging, the other drivers, and the printing of values and expressions.
pub mod Base
pub mod Api
pub mod Glob
pub mod Driver
pub mod Logic
pub mod Backend
pub mod External
pub mod Examples
