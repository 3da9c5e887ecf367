-- ===== src/Lib.antt =====
-- A model of pyscript, the custom component of Home Assistant that runs Python scripts by triggers.
--
-- The program's parts are classes with class variables, one per process, which call each other
-- and Home Assistant. A class or an object is a record here, a method is a function that returns
-- the record afterwards, and a method that may raise returns a result beside it, since what was
-- changed before the exception stays changed. Where the order of calls of Home Assistant matters,
-- they are kept as a list. Asynchronous methods run to their end where nothing in them waits for
-- another task; where one does, it is split at the wait, and a history puts other calls between.
--
-- Base: numbers, strings, lists, results; dict and set as lists by insertion order, behind laws.
--   Base/Text has str.split on dots.
-- Notify: custom_components/pyscript/event.py, webhook.py and mqtt.py. The three keep a table of
--   queues by topic, with one listener of Home Assistant's for each topic that has queues. Notify
--   has the common table with notify_add, notify_del and update; Notify/Event, Notify/Webhook and
--   Notify/Mqtt have what differs. In MQTT notify_add waits for the subscription between two
--   halves. Triggers add and remove their queues here.
-- Function: custom_components/pyscript/function.py. Function/Tasks has the record of tasks,
--   Function/Unique task.unique and task.cancel, Function/Coroutine run_coro and the callbacks,
--   Function/Names task.name2id, Function/Services service_register and service_remove,
--   Function/Arguments the calls of services. A task is a number.
-- State: custom_components/pyscript/state.py and entity.py. State/Machine is the interface to
--   hass.states, State/Watch has notify_add and notify_del, State/Deliver update and
--   notify_var_get, State/Access set, setattr, delete and exist, State/Read get, State/Persist
--   persist and getattr. Values are a parameter, with the tests that the code makes on them.
--   States that Home Assistant refuses to store are not modelled.
-- Manager: custom_components/pyscript/decorator_abc.py, with decorator.py in Manager/Dispatch (the
--   managers of a function and of task.wait_until) and, of the directory decorators, state.py in
--   Manager/Hold (the hold times of a state trigger) and parts of state.py, timing.py and event.py
--   in Manager/Active. A decorator is a number; what its methods raise or answer is a parameter, and
--   of a guard's answer it is kept whether it is False, counts as false, or neither. The stop of a
--   manager is one step: the dispatch of a time trigger at its stop for the shutdown is left out, and
--   so is what happens between the starts of two decorators.
-- Decorators: of the same directory task.py, the names and arguments of service.py, and the handlers
--   of mqtt.py and webhook.py. What expressions say is a parameter.
-- Requirements: custom_components/pyscript/requirements.py. Requirements/Lines reads a line,
--   Requirements/Choose picks the versions, Requirements/Install decides what is installed. The
--   versions of the library packaging are an interface with the laws of their order.
-- Contexts: custom_components/pyscript/global_ctx.py and __init__.py. Contexts/Import has
--   module_import up to the load, Contexts/Load load_file, start_global_contexts and
--   unload_scripts, Contexts/Reload what load_scripts deletes and loads, Contexts/Recurse the
--   imports that import_recurse collects for it. The run of a script is a parameter, which may load
--   other contexts and start triggers.
-- Trigger: custom_components/pyscript/trigger.py, the comparison of identifiers with a change.
-- Timer: the class TrigTime of trigger.py. Timer has the calendar, offsets and parse_date_time,
--   Timer/Next timer_trigger_next, Timer/Active timer_active_check. A time is a whole number of
--   microseconds, and where the code divides by a period in floats the division is exact here; the
--   texts are given as what the regular expressions match in them. The package croniter, the offset
--   from UTC and the times of the sun are parameters. The end of the calendar in the year 9999 is
--   left out for sums.
-- Legacy: the class TrigInfo of trigger.py, its loop trigger_watch, round by round; and in
--   Legacy/WaitUntil task.wait_until, with the queues that it adds and gives back, the wait of a
--   round, and the state triggers. What the expressions say is given with a notification.
-- Interpreter: custom_components/pyscript/eval.py, of which the statements that direct the flow of
--   control are modelled, in Interpreter/Names the tables of names of a function, and in
--   Interpreter/Unpack the assignment to a tuple. A statement is the function that aeval runs for
--   it.
-- Calls: the calls of script functions in eval.py. Calls has the binding of the arguments,
--   Calls/Enter the cells that functions share and the switch of the interpreter's tables, and
--   Calls/Resolve which variables are shared, with the rules of scopes for it in Calls/Tagged. The
--   names of a body, which get_names collects, are given.
-- Expressions: comparisons, Boolean operators, lists and list comprehensions of eval.py, in
--   Expressions/Comprehensions sets and dicts, and in Expressions/With the statement with.
-- Jupyter: the class ZmqSocket of custom_components/pyscript/jupyter_kernel.py, the frames that it
--   writes and reads, as lists of bytes, and in Jupyter/Messages the messages that Kernel signs and
--   reads. JSON and the signature are parameters.
-- Setup: EvalFunc.trigger_init of eval.py, the checks of the decorators' arguments and how the
--   decorators are handed out to the triggers of a function. The decorator service is left out.
--
-- Bounds and fuel: a while loop of a script has a number of rounds, since it may run for ever;
-- one that ends does so in the same way with more rounds (Interpreter/Loops). The loop of
-- @time_trigger that takes a word out of its arguments has enough in the number of arguments
-- (Manager/Active), and the loop over croniter in twice the offset from UTC (Timer/CronTime).
-- The walk over imports has enough above the longest chain of them, where there is no cycle
-- (Contexts/Imported), and the loop over frames above the number of parts (Jupyter/Framed). The
-- triggers of a function are handed out in as many rounds as a kind has decorators
-- (Setup/HandedOut). All others follow a list, or count the levels of an import.
-- Times are whole microseconds, so the difference that state.py ignores is one unit.
--
-- Not modelled: the rest of the interpreter (classes, imports, the collection of names), the start
-- and stop of legacy triggers, the shell handler of the Jupyter kernel, the configuration flow and
-- the stub generator; the reading of files, sockets and the watchdog, which are input and output;
-- log messages.
pub mod Base
pub mod Calls
pub mod Contexts
pub mod Decorators
pub mod Expressions
pub mod Function
pub mod Interpreter
pub mod Jupyter
pub mod Legacy
pub mod Manager
pub mod Notify
pub mod Requirements
pub mod Setup
pub mod State
pub mod Timer
pub mod Trigger
